-- ===== src/Sqs/Hidden.antt =====
-- control-plane/messaging/sqs/main.go: a message that stays out of sight over later requests.
use mathlib.Core.Bool.{true≢false}
use tiny_aws.Prelude.{
  ℕ, ◌+◌, String, ◌≡◌, ◌≢◌, refl, sym, ◌∙◌, ◌++◌, Bool, true, false, Option, none, some, List, [],
  ◌∷◌, arith, ◌==◌, All, All-append, Bool-cases, inl, inr,
}
use tiny_aws.Go.Time.{Time}
use tiny_aws.Go.Http.{Response, json, status_ok}
use tiny_aws.Sql
use tiny_aws.Sql.Laws.{
  has-update, has-append, All-update, All-select_first, exec-keeps, select_first-test, exec-none,
}
use tiny_aws.Sqs.{
  Sqs, Message, message_key, Reply, received, Io, is_visible, is_dead, to_dead_letter, hide,
  mark_deleted, finish, deliver, receive_row, list_queues, receive, send, delete, create_queue,
  Request, create_request, list_request, send_request, receive_request, delete_request, serve,
  serve_all,
}

-- The table holds the message `id`, and every row of that identifier is out of sight by `Blocked`.
pub record IsHidden (id : String) (Blocked : Message → Type 0) (t : List Message) : Type 0 where
  pub present : Sql.has message_key id t ≡ true
  pub hidden : All (λ m. m.id ≡ id → Blocked m) t

-- The receives among the requests come at instants that `Allowed` admits.
abbrev pub Within : (Time → Type 0) → Request → Type 0
Within Allowed (receive_request io queue now) = Allowed now
Within Allowed _ = Unit

-- The response does not hand the message out.
abbrev pub Withholds : String → Response Reply → Type 0
Withholds id reply = (body : String) (count : ℕ) → reply ≢ json status_ok (received id body count)

module _ (id : String) (Blocked : Message → Type 0) (Allowed : Time → Type 0)
    (blocks : (queue : String) (now : Time) (m : Message)
      → Blocked m
      → Allowed now
      → is_visible queue now m ≡ false)
    (marks : (m : Message) → Blocked m → Blocked (mark_deleted m)) where
  pub update-IsHidden :
      (k : String) (f : Message → Message) (t : List Message)
      → ((m : Message) → (f m).id ≡ m.id)
      → ((m : Message) → m.id ≡ k → m.id ≡ id → Blocked m → Blocked (f m))
      → IsHidden id Blocked t
      → IsHidden id Blocked (Sql.update message_key k f t)
  update-IsHidden k f t same step h = record {
    present = rw (has-update message_key k id f t same) h.present;
    hidden =
        All-update message_key (λ m. m.id ≡ id → Blocked m) k f t
          (λ m old at e. let e' : m.id ≡ id = rw (same m) at e in step m at e' (old e')) h.hidden;
  }

  pub delete-IsHidden :
      (ok : Bool) (k : String) (s : Sqs)
      → IsHidden id Blocked s.messages
      → IsHidden id Blocked (delete ok k s).0.messages
  unfolding delete
  delete-IsHidden ok k s h =
      exec-keeps (IsHidden id Blocked) ok _ s.messages h
        (update-IsHidden k mark_deleted s.messages (λ m. refl) (λ m at e old. marks m old) h)

  -- A message with the same identifier breaks the primary key.
  pub insert-IsHidden :
      (ok : Bool) (m : Message) (t : List Message)
      → IsHidden id Blocked t
      → IsHidden id Blocked (Sql.exec ok (Sql.insert message_key m t) t).0
  unfolding Sql.insert
  insert-IsHidden ok m t h = elim (Bool-cases (Sql.has message_key m.id t)) [
    | inl e ↦ rw e (rw (exec-none ok t) h)
    | inr e ↦ rw e (
        exec-keeps (IsHidden id Blocked) ok (t ++ m ∷ []) t h (record {
          present = rw (has-append message_key m id t) (ground (arith, h.present));
          hidden =
              All-append (λ x. x.id ≡ id → Blocked x) t (m ∷ []) h.hidden
                ((λ p. absurd (true≢false (sym h.present ∙ rw (sym p) e))), tt);
        }))
  ]

  send-IsHidden :
      (ok : Bool) (queue : String) (body : Option String) (now : Time) (s : Sqs)
      → IsHidden id Blocked s.messages
      → IsHidden id Blocked (send ok queue body now s).0.messages
  unfolding send
  send-IsHidden ok queue none now s h = h
  send-IsHidden ok queue (some body) now s h = elim (Bool-cases (body == "")) [
    | inl e ↦ rw e h
    | inr e ↦ rw e (insert-IsHidden ok _ s.messages h)
  ]

  -- The update of another message.
  pub finish-IsHidden :
      (io : Io) (now : Time) (m : Message) (policy : String × ℕ) (s : Sqs)
      → m.id ≢ id
      → IsHidden id Blocked s.messages
      → IsHidden id Blocked (finish io now m policy s).0.messages
  unfolding finish
  finish-IsHidden io now m policy s ne h =
      elim (Bool-cases (is_dead policy (m.receive_count + 1))) [
        | inl e ↦ rw e (moved (to_dead_letter _ _ _) (unfold to_dead_letter in λ x. refl))
        | inr e ↦ rw e (moved (hide _ _) (unfold hide in λ x. refl))
      ]
    where
      moved :
          (f : Message → Message)
          → ((x : Message) → (f x).id ≡ x.id)
          → IsHidden id Blocked
              (Sql.exec io.update_ok (some (Sql.update message_key m.id f s.messages)) s.messages).0
      moved f same =
          exec-keeps (IsHidden id Blocked) io.update_ok _ s.messages h
            (update-IsHidden m.id f s.messages same (λ x at e old. absurd (ne (sym at ∙ e))) h)

  deliver-IsHidden :
      (io : Io) (queue : String) (now : Time) (s : Sqs) (m : Message)
      → m.id ≢ id
      → IsHidden id Blocked s.messages
      → IsHidden id Blocked (deliver io queue now s m).0.messages
  unfolding deliver
  deliver-IsHidden io queue now s m ne h = finish-IsHidden io now m _ s ne h

  -- What a receive at an admitted instant picks is another message.
  pub visible-ne :
      (queue : String) (now : Time) (t : List Message) {m : Message}
      → Allowed now
      → IsHidden id Blocked t
      → Sql.select_first (is_visible queue now) t ≡ some m
      → m.id ≢ id
  visible-ne queue now t {m} early h e p = true≢false (
      sym (select_first-test (is_visible queue now) t e)
      ∙ blocks queue now m
          (All-select_first (λ x. x.id ≡ id → Blocked x) (is_visible queue now) t h.hidden e p)
          early)

  receive-IsHidden :
      (io : Io) (queue : String) (now : Time) (s : Sqs)
      → Allowed now
      → IsHidden id Blocked s.messages
      → IsHidden id Blocked (receive io queue now s).0.messages
  unfolding receive
  receive-IsHidden io queue now s early h = elim (Bool-cases io.select_ok) [
    | inl ok ↦ simp ok (rows (Sql.select_first (is_visible queue now) s.messages) refl)
    | inr failed ↦ simp failed h
  ]
    where
      rows :
          (o : Option Message)
          → Sql.select_first (is_visible queue now) s.messages ≡ o
          → IsHidden id Blocked (receive_row io queue now s o).0.messages
      rows none e = h
      rows (some m) e =
          deliver-IsHidden io queue now s m (visible-ne queue now s.messages early h e) h

  serve-IsHidden :
      (r : Request) (s : Sqs)
      → Within Allowed r
      → IsHidden id Blocked s.messages
      → IsHidden id Blocked (serve r s).0.messages
  unfolding serve create_queue
  serve-IsHidden (create_request ok name dlq max now) s b h = ground arith
  serve-IsHidden (list_request ok) s b h = h
  serve-IsHidden (send_request ok queue body now) s b h = send-IsHidden ok queue body now s h
  serve-IsHidden (receive_request io queue now) s b h = receive-IsHidden io queue now s b h
  serve-IsHidden (delete_request ok k) s b h = delete-IsHidden ok k s h

  pub finish-Withholds :
      (io : Io) (now : Time) (m : Message) (policy : String × ℕ) (s : Sqs)
      → m.id ≢ id
      → Withholds id (finish io now m policy s).1
  unfolding finish
  finish-Withholds io now m policy s ne body count p =
      elim (Bool-cases (is_dead policy (m.receive_count + 1))) [
        | inl e ↦ let q = rw e at p in cc
        | inr e ↦ let q = rw e at p in ne (cc q)
      ]

  deliver-Withholds :
      (io : Io) (queue : String) (now : Time) (s : Sqs) (m : Message)
      → m.id ≢ id
      → Withholds id (deliver io queue now s m).1
  unfolding deliver
  deliver-Withholds io queue now s m ne = finish-Withholds io now m _ s ne

  receive-Withholds :
      (io : Io) (queue : String) (now : Time) (s : Sqs)
      → Allowed now
      → IsHidden id Blocked s.messages
      → Withholds id (receive io queue now s).1
  unfolding receive
  receive-Withholds io queue now s early h body count = elim (Bool-cases io.select_ok) [
    | inl ok ↦ simp ok (rows (Sql.select_first (is_visible queue now) s.messages) refl)
    | inr failed ↦ simp failed (λ p. cc)
  ]
    where
      rows :
          (o : Option Message)
          → Sql.select_first (is_visible queue now) s.messages ≡ o
          → (receive_row io queue now s o).1 ≢ json status_ok (received id body count)
      rows none e p = cc
      rows (some m) e p =
          deliver-Withholds io queue now s m (visible-ne queue now s.messages early h e) body count
            p

  serve-Withholds :
      (r : Request) (s : Sqs)
      → Within Allowed r
      → IsHidden id Blocked s.messages
      → Withholds id (serve r s).1
  unfolding serve create_queue list_queues send delete
  serve-Withholds (create_request ok name dlq max now) s b h body count = ground arith
  serve-Withholds (list_request ok) s b h body count = ground arith
  serve-Withholds (send_request ok queue none now) s b h body count = λ p. cc
  serve-Withholds (send_request ok queue (some text) now) s b h body count = ground arith
  serve-Withholds (receive_request io queue now) s b h body count =
      receive-Withholds io queue now s b h body count
  serve-Withholds (delete_request ok k) s b h body count = λ p. cc

  pub serve_all-Withholds :
      (rs : List Request) (s : Sqs)
      → All (Within Allowed) rs
      → IsHidden id Blocked s.messages
      → All (Withholds id) (serve_all rs s).1
  unfolding serve_all
  serve_all-Withholds [] s b h = tt
  serve_all-Withholds (r ∷ rs) s (b, bs) h =
      (serve-Withholds r s b h, serve_all-Withholds rs (serve r s).0 bs (serve-IsHidden r s b h))
