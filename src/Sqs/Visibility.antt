-- ===== src/Sqs/Visibility.antt =====
-- control-plane/messaging/sqs/main.go: the visibility timeout of a received message.
use tiny_aws.Prelude.{
  ℕ, ◌+◌, ◌*◌, ◌≤◌, ◌<◌, String, ◌≡◌, refl, subst, true, false, Option, none, some, List, [], ◌∷◌,
  arith, All, Bool-cases, inl, inr,
}
use tiny_aws.Go.Time.{Time, second, format_rfc3339}
use tiny_aws.Go.Http.{json, status_ok}
use tiny_aws.Sql
use tiny_aws.Sql.Laws.{
  has-update, has-append, All-update, All-select_first, exec-keeps, select_first-test, exec-none,
}
use tiny_aws.Sqs.{
  Sqs, Message, message_key, received, Io, is_visible, is_dead, hide, mark_deleted, finish, deliver,
  receive_row, receive, delete, Request, create_request, list_request, send_request,
  receive_request, delete_request, serve_all,
}
use tiny_aws.Sqs.Hidden.{IsHidden, Within, Withholds, serve_all-Withholds}

-- the two bounds of the visibility timeout
abbrev pub NotBefore : ℕ → Message → Type 0
NotBefore u m = u ≤ m.visible_after

abbrev pub IsEarlier : ℕ → Time → Type 0
IsEarlier u now = format_rfc3339 now < u

pub NotBefore-blocks :
    {u : ℕ} (queue : String) (now : Time) (m : Message)
    → NotBefore u m
    → IsEarlier u now
    → is_visible queue now m ≡ false
unfolding is_visible
NotBefore-blocks queue now m h early = ground arith

hide-IsHidden :
    (id : String) (count : ℕ) (now : Time) (t : List Message)
    → Sql.has message_key id t ≡ true
    → IsHidden id
        (NotBefore (format_rfc3339 (now + 30 * second)))
        (Sql.update message_key id (hide count now) t)
unfolding hide
hide-IsHidden id count now t present = record {
  present = rw (has-update message_key id id (hide count now) t (λ x. refl)) present;
  hidden =
      Sql.Laws.All-update_each message_key _ id (hide count now) t (λ x at e. omega arith)
        (λ x ne e. absurd (ne e));
}

pub finish-hides :
    (io : Io) (now : Time) (m : Message) (policy : String × ℕ) (s : Sqs) (id body : String)
    (count : ℕ)
    → io.update_ok ≡ true
    → Sql.has message_key m.id s.messages ≡ true
    → (finish io now m policy s).1 ≡ json status_ok (received id body count)
    → IsHidden id
        (NotBefore (format_rfc3339 (now + 30 * second)))
        (finish io now m policy s).0.messages
unfolding finish
finish-hides io now m policy s id body count ok present p =
    elim (Bool-cases (is_dead policy (m.receive_count + 1))) [
      | inl e ↦ let q = rw e at p in cc
      | inr e ↦
          let q = rw e at p in
          let same : m.id ≡ id = cc q in
          simp (e, ok)
            (unfold Sql.exec in
              subst
                (λ k.
                  IsHidden k (NotBefore (format_rfc3339 (now + 30 * second)))
                    (Sql.update message_key m.id (hide (m.receive_count + 1) now) s.messages))
                same (hide-IsHidden m.id (m.receive_count + 1) now s.messages present))
    ]

-- What a receive hands out it has hidden for thirty seconds.
pub receive-hides :
    (io : Io) (queue : String) (now : Time) (s : Sqs) (id body : String) (count : ℕ)
    → io.update_ok ≡ true
    → (receive io queue now s).1 ≡ json status_ok (received id body count)
    → IsHidden id
        (NotBefore (format_rfc3339 (now + 30 * second)))
        (receive io queue now s).0.messages
unfolding receive deliver
receive-hides io queue now s id body count ok h = elim (Bool-cases io.select_ok) [
  | inl e ↦ simp e (rows (Sql.select_first (is_visible queue now) s.messages) refl (simp e at h))
  | inr e ↦ let p = simp e at h in cc
]
  where
    rows :
        (o : Option Message)
        → Sql.select_first (is_visible queue now) s.messages ≡ o
        → (receive_row io queue now s o).1 ≡ json status_ok (received id body count)
        → IsHidden id
            (NotBefore (format_rfc3339 (now + 30 * second)))
            (receive_row io queue now s o).0.messages
    rows none e p = cc
    rows (some m) e p =
        finish-hides io now m _ s id body count ok
          (Sql.Laws.has-select_first message_key (is_visible queue now) s.messages e) p

-- After a receive that hands a message out and hides it, no response to any later requests hands it
-- out again, as long as their receives come less than thirty seconds (of RFC 3339 texts) later.
pub receive_exclusive :
    (io : Io) (queue : String) (now : Time) (s : Sqs) (id body : String) (count : ℕ)
    (rs : List Request)
    → io.update_ok ≡ true
    → (receive io queue now s).1 ≡ json status_ok (received id body count)
    → All (Within (IsEarlier (format_rfc3339 (now + 30 * second)))) rs
    → All (Withholds id) (serve_all rs (receive io queue now s).0).1
unfolding mark_deleted
receive_exclusive io queue now s id body count rs ok h before =
    serve_all-Withholds id (NotBefore _) (IsEarlier _) NotBefore-blocks (λ m b. b) rs
      (receive io queue now s).0 before (receive-hides io queue now s id body count ok h)

pub IsDeleted-blocks :
    (queue : String) (now : Time) (m : Message)
    → m.deleted ≡ true
    → Unit {0}
    → is_visible queue now m ≡ false
unfolding is_visible
IsDeleted-blocks queue now m h always = ground arith

pub delete-deletes :
    (id : String) (t : List Message)
    → Sql.has message_key id t ≡ true
    → IsHidden id (λ m. m.deleted ≡ true) (Sql.update message_key id mark_deleted t)
unfolding mark_deleted
delete-deletes id t present = record {
  present = rw (has-update message_key id id mark_deleted t (λ m. refl)) present;
  hidden =
      Sql.Laws.All-update_each message_key _ id mark_deleted t (λ m at e. refl)
        (λ m ne e. absurd (ne e));
}

Within-always : (rs : List Request) → All (Within (λ now. Unit)) rs
Within-always [] = tt
Within-always (receive_request io queue now ∷ rs) = (tt, Within-always rs)
Within-always (create_request ok name dlq max now ∷ rs) = (tt, Within-always rs)
Within-always (list_request ok ∷ rs) = (tt, Within-always rs)
Within-always (send_request ok queue body now ∷ rs) = (tt, Within-always rs)
Within-always (delete_request ok k ∷ rs) = (tt, Within-always rs)

-- Once a message of the table is deleted, no response to any later requests hands it out.
pub delete_final :
    (id : String) (s : Sqs) (rs : List Request)
    → Sql.has message_key id s.messages ≡ true
    → All (Withholds id) (serve_all rs (delete true id s).0).1
unfolding delete Sql.exec mark_deleted
delete_final id s rs present =
    serve_all-Withholds id (λ m. m.deleted ≡ true) (λ now. Unit) IsDeleted-blocks (λ m h. refl) rs
      (delete true id s).0 (Within-always rs) (delete-deletes id s.messages present)
