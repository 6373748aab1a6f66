-- ===== src/Cloud/Errors.antt =====
-- GetErrorObjectForCloudStorageStderr of cloud_storage.py.
use ftc_designosaurs.Base.{
  String, Bool, true, false, ◌||◌, List, [], ◌∷◌, Option, none, some, ◌==◌, comparable_nat,
  if◌then◌else◌,
}
use ftc_designosaurs.Python.{
  Error, cloud_storage_error, credentials_error, permission_error, not_found_error, server_error,
}
use ftc_designosaurs.Flags.Chars.{Text}
use ftc_designosaurs.Texts.{text, is_prefix, is_in}

-- What follows the first place where a part stands.
unfoldable pub drop_prefix : Text → Text → Text
drop_prefix [] t = t
drop_prefix (c ∷ cs) [] = []
drop_prefix (c ∷ cs) (d ∷ ds) = drop_prefix cs ds

unfoldable pub behind : Text → Text → Option Text
behind part [] = if is_prefix part [] then some [] else none
behind part (c ∷ cs) =
    let rest = behind part cs in
    if is_prefix part (c ∷ cs) then some (drop_prefix part (c ∷ cs)) else rest

abbrev all_behind : (Text → Bool) → Option Text → Bool
all_behind rest none = false
all_behind rest (some t) = rest t

-- The parts stand in the text one behind the other, as a pattern with .* between them asks.
unfoldable pub in_order : List Text → Text → Bool
in_order [] t = true
in_order (p ∷ ps) t = all_behind (in_order ps) (behind p t)

-- What a . of a pattern reaches from the start of the text.
unfoldable pub first_line : Text → Text
first_line [] = []
first_line (c ∷ cs) = let rest = first_line cs in if c == 10 then [] else c ∷ rest

-- re.match('.*code.*does not have .* access to .*', stderr)
abbrev pub lacks_access : String → Text → Bool
lacks_access code stderr =
    in_order (text code ∷ text "does not have " ∷ text " access to " ∷ []) (first_line stderr)

abbrev pub starts_with : String → Text → Bool
starts_with s t = is_prefix (text s) t

abbrev pub has_text : String → Text → Bool
has_text s t = is_in (text s) t

unfoldable pub error_of_stderr : Text → Error
error_of_stderr stderr =
    if starts_with "You are attempting to access protected data with no configured" stderr
      || starts_with "Failure: No handler was ready to authenticate." stderr
      || lacks_access "401" stderr
    then credentials_error
    else if has_text "status=403" stderr
        || has_text "status 403" stderr
        || has_text "403 Forbidden" stderr
        || lacks_access "403" stderr
    then permission_error
    else if starts_with "InvalidUriError" stderr
        || has_text "No such object" stderr
        || has_text "No URLs matched" stderr
        || has_text "One or more URLs matched no" stderr
    then not_found_error
    else if has_text "500 Internal Server Error" stderr
    then server_error
    else cloud_storage_error
