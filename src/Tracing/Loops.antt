-- ===== src/Tracing/Loops.antt =====
-- The loops of tracing_controller.py over the agents, by what their calls answer.
use ftc_designosaurs.Base.{
  List, [], ◌∷◌, ◌++◌, map, append-nil, append_assoc, Bool, true, false, ◌≡◌, refl, sym, ◌∙◌,
  Option, none, some,
}
use ftc_designosaurs.Python.{
  Ensures-then, Exec, Result, ok, err, Ensures, Ensures-weaken, ◌>>=◌, and_then,
}
use ftc_designosaurs.Tracing.Agents.{Agents, TraceResult}
use ftc_designosaurs.Tracing.Controller.{
  Self, start_children, outside, stop_children, collect, append_result, append_if,
}
use ftc_designosaurs.Tracing.Answers.{Answers, chosen, present}

module _ (agents : Agents) where
  open agents use {State, Agent, Config, start_agent_tracing, stop_agent_tracing, get_results}

  abbrev pub start_call : Agent × Config → Exec State Bool
  start_call p = start_agent_tracing p.0 p.1

  append_if-chosen :
      (b : Bool) (agent : Agent) (acc rest : List Agent) (bs : List Bool)
      → append_if agents b agent acc ++ chosen rest bs ≡ acc ++ chosen (agent ∷ rest) (b ∷ bs)
  append_if-chosen true agent acc rest bs = append_assoc acc (agent ∷ []) (chosen rest bs)
  append_if-chosen false agent acc rest bs = refl

  append_result-present :
      (o : Option TraceResult) (acc : List TraceResult) (os : List (Option TraceResult))
      → append_result agents o acc ++ present os ≡ acc ++ present (o ∷ os)
  append_result-present none acc os = refl
  append_result-present (some r) acc os = append_assoc acc (r ∷ []) (present os)

  -- The loops, with what they have appended to before.
  pub start_children-Answers :
      (rest : List (Agent × Config)) (acc : List Agent) (s : State)
      → Ensures
          (λ result t.
            (bs : List Bool) × Answers start_call rest s bs t
            × (result ≡ acc ++ chosen (map (λ p. p.0) rest) bs))
          (start_children agents rest acc s)
  unfolding start_children
  start_children-Answers [] acc s = ([], refl, sym (append-nil acc))
  start_children-Answers ((agent, config) ∷ rest) acc s =
      Ensures-then _ (start_agent_tracing agent config) _ s λ b t e.
        Ensures-weaken _ _ (start_children agents rest (append_if agents b agent acc) t)
          (λ result u (bs, answers, h).
            (b ∷ bs, (t, e, answers), h ∙ append_if-chosen b agent acc (map (λ p. p.0) rest) bs))
          (start_children-Answers rest (append_if agents b agent acc) t)

  pub stop_children-Answers :
      (rest acc : List Agent) (s : State)
      → Ensures
          (λ result t.
            (bs : List Bool) × Answers stop_agent_tracing rest s bs t
            × (result ≡ acc ++ chosen rest bs))
          (stop_children agents rest acc s)
  unfolding stop_children
  stop_children-Answers [] acc s = ([], refl, sym (append-nil acc))
  stop_children-Answers (agent ∷ rest) acc s =
      Ensures-then _ (stop_agent_tracing agent) _ s λ b t e.
        Ensures-weaken _ _ (stop_children agents rest (append_if agents b agent acc) t)
          (λ result u (bs, answers, h).
            (b ∷ bs, (t, e, answers), h ∙ append_if-chosen b agent acc rest bs))
          (stop_children-Answers rest (append_if agents b agent acc) t)

  pub collect-Answers :
      (rest : List Agent) (acc : List TraceResult) (s : State)
      → Ensures
          (λ results t.
            (os : List (Option TraceResult)) × Answers get_results rest s os t
            × (results ≡ acc ++ present os))
          (collect agents rest acc s)
  unfolding collect
  collect-Answers [] acc s = ([], refl, sym (append-nil acc))
  collect-Answers (agent ∷ rest) acc s = Ensures-then _ (get_results agent) _ s λ o t e.
      Ensures-weaken _ _ (collect agents rest (append_result agents o acc) t)
        (λ results u (os, answers, h).
          (o ∷ os, (t, e, answers), h ∙ append_result-present o acc os))
        (collect-Answers rest (append_result agents o acc) t)

  module _ {A B : Type 0} where
    outside_result :
        (Q : B → Self agents → Type 0) (out : Result A × State) (f : A → Exec (Self agents) B)
        (c : Self agents)
        → ((a : A) (t : State) → out ≡ (ok a, t) → Ensures Q (f a (record c { world = t })))
        → Ensures Q (and_then out.0 f (record c { world = out.1 }))
    outside_result Q (ok a, t) f c k = k a t refl
    outside_result Q (err e, t) f c k = tt

    -- A call outside of the controller, which changes the world alone, and what follows it.
    pub outside_lem :
        (Q : B → Self agents → Type 0) (m : Exec State A) (f : A → Exec (Self agents) B)
        (c : Self agents)
        → ((a : A) (t : State) → m c.world ≡ (ok a, t) → Ensures Q (f a (record c { world = t })))
        → Ensures Q ((outside agents m >>= f) c)
    outside_lem Q m f c k = outside_result Q (m c.world) f c k
