-- ===== src/Cloud/Hash.antt =====
-- CalculateHash and ReadHash of cloud_storage.py.
use ftc_designosaurs.Base.{
  ℕ, zero, suc, ◌≤◌, String, Option, none, some, [], ◌∷◌, ◌++◌, length, ◌≡◌, refl, sym, ap, ◌∙◌,
  arith,
}
use ftc_designosaurs.Python.{Result, ok, err, os_error}
use ftc_designosaurs.Flags.Chars.{Text, rstrip}
use ftc_designosaurs.Cloud.Gsutil.{Host}
use ftc_designosaurs.Cloud.Files.{Files}

-- f.read(n): the bytes that are read, and the ones that are left
unfoldable pub split_at : ℕ → Text → Text × Text
split_at zero t = ([], t)
split_at (suc n) [] = ([], [])
split_at (suc n) (c ∷ cs) = let (front, back) = split_at n cs in (c ∷ front, back)

abbrev pub chunk_size : ℕ
chunk_size = 1048576

module _ (host : Host) (files : Files host) where
  open host use {State}
  open files use {read, Sha, sha1, update, hexdigest, update-update, update-nil}

  -- The loop over the chunks, of which there are at most as many as there are bytes
  unfoldable pub hash_chunks : ℕ → ℕ → Sha → Text → Sha
  hash_chunks size zero h t = h
  hash_chunks size (suc n) h [] = h
  hash_chunks size (suc n) h (c ∷ cs) =
      let (chunk, left) = split_at size (c ∷ cs) in hash_chunks size n (update h chunk) left

  abbrev pub hash_of : Text → Text
  hash_of t = hexdigest (hash_chunks chunk_size (length t) sha1 t)

  abbrev pub hash_result : Option Text → Result Text
  hash_result none = err os_error
  hash_result (some t) = ok (hash_of t)

  -- CalculateHash
  unfoldable pub calculate_hash : String → State → Result Text
  calculate_hash path s = hash_result (read path s)

  abbrev pub hash_text : Option Text → Result Text
  hash_text none = err os_error
  hash_text (some t) = ok (rstrip (split_at 1024 t).0)

  -- ReadHash
  unfoldable pub read_hash : String → State → Result Text
  read_hash path s = hash_text (read path s)

  split_at-append : (n : ℕ) (t : Text) → (split_at n t).0 ++ (split_at n t).1 ≡ t
  unfolding split_at
  split_at-append zero t = refl
  split_at-append (suc n) [] = refl
  split_at-append (suc n) (c ∷ cs) = ap (λ x. c ∷ x) (split_at-append n cs)

  length-split_at : (n : ℕ) (t : Text) → length (split_at n t).1 ≤ length t
  unfolding split_at
  length-split_at zero t = omega arith
  length-split_at (suc n) [] = omega arith
  length-split_at (suc n) (c ∷ cs) = let rest = length-split_at n cs in omega arith

  hash_chunks_lem :
      (size n : ℕ) (h : Sha) (t : Text) → length t ≤ n → hash_chunks (suc size) n h t ≡ update h t
  unfolding hash_chunks split_at
  hash_chunks_lem size zero h [] few = sym (update-nil h)
  hash_chunks_lem size zero h (c ∷ cs) few = absurd (omega arith)
  hash_chunks_lem size (suc n) h [] few = sym (update-nil h)
  hash_chunks_lem size (suc n) h (c ∷ cs) few =
      let left = length-split_at size cs in
      hash_chunks_lem size n (update h (c ∷ (split_at size cs).0)) (split_at size cs).1
        (omega arith)
      ∙ update-update h (c ∷ (split_at size cs).0) (split_at size cs).1
      ∙ ap (λ x. update h (c ∷ x)) (split_at-append size cs)

  -- The hash of a file, which is read in pieces of a megabyte, is the hash of all that is in it.
  pub calculate_hash-whole :
      (path : String) (t : Text) (s : State)
      → read path s ≡ some t
      → calculate_hash path s ≡ ok (hexdigest (update sha1 t))
  unfolding calculate_hash
  calculate_hash-whole path t s h =
      ap hash_result h
      ∙ ap (λ x. ok (hexdigest x)) (hash_chunks_lem 1048575 (length t) sha1 t (omega arith))
