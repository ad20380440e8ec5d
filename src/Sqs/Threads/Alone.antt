-- ===== src/Sqs/Threads/Alone.antt =====
-- control-plane/messaging/sqs/main.go, requests at the same time: a request that no other one
-- interrupts.
use tiny_aws.Prelude.{
  length, String, Bool, ◌≡◌, refl, ap, Option, none, some, List, [], ◌∷◌, ◌++◌, ◌==◌, Bool-cases,
  inl, inr,
}
use tiny_aws.Go.Time.{Time}
use tiny_aws.Sqs.{
  Sqs, Message, Io, deliver, receive_row, receive, store_message, send_body, send, Request,
  create_request, list_request, send_request, receive_request, delete_request, serve,
}
use tiny_aws.Sqs.Threads.{Pc, waiting, answered, answer, after_select, step, advance, run}

-- three steps of a request
abbrev steps : Pc → Sqs → Pc × Sqs
steps p s = let (p', s') = step p s in let (p'', s'') = step p' s' in step p'' s''

take_number-send :
    (ok : Bool) (queue : String) (body : Option String) (now : Time) (s : Sqs)
    → steps (waiting (send_request ok queue body now)) s ≡ answer (send ok queue body now s)
unfolding step send send_body store_message
take_number-send ok queue none now s = refl
take_number-send ok queue (some body) now s = elim (Bool-cases (body == "")) [
  | inl e ↦ rw e refl
  | inr e ↦ rw e refl
]

after_select-receive_row :
    (io : Io) (queue : String) (now : Time) (s : Sqs) (o : Option Message)
    → (let (p, s') = step (after_select io queue now o) s in step p s')
      ≡ answer (receive_row io queue now s o)
unfolding step receive_row deliver
after_select-receive_row io queue now s none = refl
after_select-receive_row io queue now s (some m) = refl

steps-serve : (r : Request) (s : Sqs) → steps (waiting r) s ≡ answer (serve r s)
unfolding step serve
steps-serve (create_request ok name dlq max now) s = refl
steps-serve (list_request ok) s = refl
steps-serve (send_request ok queue body now) s = take_number-send ok queue body now s
steps-serve (receive_request io queue now) s = elim (Bool-cases io.select_ok) [
  | inl e ↦ unfold receive in simp e (after_select-receive_row io queue now s _)
  | inr e ↦ unfold receive in simp e
]
steps-serve (delete_request ok id) s = refl

-- Only the request that takes the step changes, and it does not see the others.
advance-at :
    (before : List Pc) (p : Pc) (after : List Pc) (s : Sqs)
    → advance (length before) (before ++ p ∷ after) s
      ≡ (before ++ (step p s).0 ∷ after, (step p s).1)
unfolding advance
advance-at [] p after s = refl
advance-at (x ∷ before) p after s =
    ap (λ (r : List Pc × Sqs). (x ∷ r.0, r.1)) (advance-at before p after s)

-- A request among others, whatever they have done so far, whose three steps come one after the
-- other: it answers what its handler answers, and leaves the tables as the handler does and the
-- others where they stand.
pub run-serve :
    (before after : List Pc) (r : Request) (s : Sqs)
    → let i = length before in
      run (i ∷ i ∷ i ∷ []) (before ++ waiting r ∷ after) s
      ≡ (before ++ answered (serve r s).1 ∷ after, (serve r s).0)
unfolding run
run-serve before after r s =
    let p = waiting r in
    let (p', s') = step p s in
    let (p'', s'') = step p' s' in
    rw (advance-at before p after s, advance-at before p' after s', advance-at before p'' after s'')
      (ap (λ (q : Pc × Sqs). (before ++ q.0 ∷ after, q.1)) (steps-serve r s))
