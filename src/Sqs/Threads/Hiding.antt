-- ===== src/Sqs/Threads/Hiding.antt =====
-- control-plane/messaging/sqs/main.go, requests at the same time: what a hidden or deleted message
-- is safe from, in whatever order the statements run.
use tiny_aws.Prelude.{
  ℕ, zero, suc, ◌+◌, ◌*◌, String, true, false, ◌≡◌, ◌≢◌, refl, Option, none, some, List, [], ◌∷◌,
  arith, ◌==◌, All, Bool-cases, inl, inr,
}
use tiny_aws.Go.Time.{Time, second, format_rfc3339}
use tiny_aws.Go.Http.{json, status_ok}
use tiny_aws.Sql
use tiny_aws.Sqs.{
  Sqs, Message, message_key, received, Io, is_visible, finish, mark_deleted, store_message,
  create_queue, list_queues, delete, create_request, list_request, send_request, receive_request,
  delete_request,
}
use tiny_aws.Sqs.Hidden.{
  IsHidden, Within, Withholds, insert-IsHidden, delete-IsHidden, finish-IsHidden, visible-ne,
  finish-Withholds,
}
use tiny_aws.Sqs.Visibility.{
  NotBefore, IsEarlier, NotBefore-blocks, finish-hides, IsDeleted-blocks, delete-deletes,
}
use tiny_aws.Sqs.Threads.{
  Pc, waiting, numbered, selected, judged, answered, after_select, step, advance, run,
}

-- The request has not read the message `id`, its receive comes at an instant that `Allowed` admits,
-- and its answer does not hand the message out.
abbrev pub IsClear : String → (Time → Type 0) → Pc → Type 0
IsClear id Allowed (waiting r) = Within Allowed r
IsClear id Allowed (numbered ok seq queue body now) = Unit
IsClear id Allowed (selected io queue now m) = m.id ≢ id
IsClear id Allowed (judged io now m policy) = m.id ≢ id
IsClear id Allowed (answered reply) = Withholds id reply

module _ (id : String) (Blocked : Message → Type 0) (Allowed : Time → Type 0)
    (blocks : (queue : String) (now : Time) (m : Message)
      → Blocked m
      → Allowed now
      → is_visible queue now m ≡ false)
    (marks : (m : Message) → Blocked m → Blocked (mark_deleted m)) where
  step-IsHidden :
      (p : Pc) (s : Sqs)
      → IsClear id Allowed p
      → IsHidden id Blocked s.messages
      → IsHidden id Blocked (step p s).1.messages
  unfolding step create_queue store_message
  step-IsHidden (waiting (create_request ok name dlq max now)) s c h = ground arith
  step-IsHidden (waiting (list_request ok)) s c h = h
  step-IsHidden (waiting (send_request ok queue none now)) s c h = h
  step-IsHidden (waiting (send_request ok queue (some body) now)) s c h =
      elim (Bool-cases (body == "")) [ inl e ↦ rw e h | inr e ↦ rw e h ]
  step-IsHidden (waiting (receive_request io queue now)) s c h = elim (Bool-cases io.select_ok) [
    | inl e ↦ simp e h
    | inr e ↦ simp e h
  ]
  step-IsHidden (waiting (delete_request ok k)) s c h =
      delete-IsHidden id Blocked Allowed blocks marks ok k s h
  step-IsHidden (numbered ok seq queue body now) s c h =
      insert-IsHidden id Blocked Allowed blocks marks ok _ s.messages h
  step-IsHidden (selected io queue now m) s c h = h
  step-IsHidden (judged io now m policy) s c h =
      finish-IsHidden id Blocked Allowed blocks marks io now m policy s c h
  step-IsHidden (answered reply) s c h = h

  after_select-IsClear :
      (io : Io) (queue : String) (now : Time) (t : List Message) (o : Option Message)
      → Sql.select_first (is_visible queue now) t ≡ o
      → Allowed now
      → IsHidden id Blocked t
      → IsClear id Allowed (after_select io queue now o)
  after_select-IsClear io queue now t none e early h = λ body count p. cc
  after_select-IsClear io queue now t (some m) e early h =
      visible-ne id Blocked Allowed blocks marks queue now t early h e

  step-IsClear :
      (p : Pc) (s : Sqs)
      → IsHidden id Blocked s.messages
      → IsClear id Allowed p
      → IsClear id Allowed (step p s).0
  unfolding step create_queue list_queues store_message delete
  step-IsClear (waiting (create_request ok name dlq max now)) s h c = λ body count. ground arith
  step-IsClear (waiting (list_request ok)) s h c = λ body count. ground arith
  step-IsClear (waiting (send_request ok queue none now)) s h c = λ body count p. cc
  step-IsClear (waiting (send_request ok queue (some text) now)) s h c =
      elim (Bool-cases (text == "")) [ inl e ↦ rw e (λ body count p. cc) | inr e ↦ rw e tt ]
  step-IsClear (waiting (receive_request io queue now)) s h c = elim (Bool-cases io.select_ok) [
    | inl e ↦ simp e (after_select-IsClear io queue now s.messages _ refl c h)
    | inr e ↦ simp e (λ body count p. cc)
  ]
  step-IsClear (waiting (delete_request ok k)) s h c = λ body count p. cc
  step-IsClear (numbered ok seq queue text now) s h c = λ body count. ground arith
  step-IsClear (selected io queue now m) s h c = c
  step-IsClear (judged io now m policy) s h c =
      finish-Withholds id Blocked Allowed blocks marks io now m policy s c
  step-IsClear (answered reply) s h c = c

  advance-IsClear :
      (i : ℕ) (ps : List Pc) (s : Sqs)
      → All (IsClear id Allowed) ps
      → IsHidden id Blocked s.messages
      → let (ps', s') = advance i ps s in
        All (IsClear id Allowed) ps' × IsHidden id Blocked s'.messages
  unfolding advance
  advance-IsClear i [] s c h = (tt, h)
  advance-IsClear zero (p ∷ ps) s (c, cs) h = ((step-IsClear p s h c, cs), step-IsHidden p s c h)
  advance-IsClear (suc i) (p ∷ ps) s (c, cs) h =
      let (cs', h') = advance-IsClear i ps s cs h in ((c, cs'), h')

  run-IsClear :
      (schedule : List ℕ) (ps : List Pc) (s : Sqs)
      → All (IsClear id Allowed) ps
      → IsHidden id Blocked s.messages
      → All (IsClear id Allowed) (run schedule ps s).0
  unfolding run
  run-IsClear [] ps s c h = c
  run-IsClear (i ∷ is) ps s c h =
      let (c', h') = advance-IsClear i ps s c h in
      run-IsClear is (advance i ps s).0 (advance i ps s).1 c' h'

-- From the moment at which the UPDATE of a receive has hidden a message that it hands out: in
-- whatever order the statements of all other requests run, none of them hands the message out, as
-- long as none had read its row before and their receives come less than thirty seconds (of RFC
-- 3339 texts) later.
pub receive_exclusive_any_order :
    (io : Io) (now : Time) (m : Message) (policy : String × ℕ) (s : Sqs) (id body : String)
    (count : ℕ) (others : List Pc) (schedule : List ℕ)
    → io.update_ok ≡ true
    → Sql.has message_key m.id s.messages ≡ true
    → (finish io now m policy s).1 ≡ json status_ok (received id body count)
    → let Allowed = IsEarlier (format_rfc3339 (now + 30 * second)) in
      All (IsClear id Allowed) others
      → All (IsClear id Allowed) (run schedule others (finish io now m policy s).0).0
unfolding mark_deleted
receive_exclusive_any_order io now m policy s id body count others schedule ok present h clear =
    run-IsClear id (NotBefore _) (IsEarlier _) NotBefore-blocks (λ x b. b) schedule others
      (finish io now m policy s).0 clear (finish-hides io now m policy s id body count ok present h)

-- Once a message of the table is deleted: in whatever order the statements of all other requests
-- run, none of them hands the message out, unless it had read its row before.
pub delete_final_any_order :
    (id : String) (s : Sqs) (others : List Pc) (schedule : List ℕ)
    → Sql.has message_key id s.messages ≡ true
    → All (IsClear id (λ now. Unit)) others
    → All (IsClear id (λ now. Unit)) (run schedule others (delete true id s).0).0
unfolding delete Sql.exec mark_deleted
delete_final_any_order id s others schedule present clear =
    run-IsClear id (λ m. m.deleted ≡ true) (λ now. Unit) IsDeleted-blocks (λ m h. refl) schedule
      others (delete true id s).0 clear (delete-deletes id s.messages present)
