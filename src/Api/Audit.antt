-- ===== src/Api/Audit.antt =====
-- control-plane/api/main.go: what the log shows of the requests.
use mathlib.Core.List.{reverse, reverse-append, append-nil, append_assoc}
use tiny_aws.Prelude.{
  ℕ, zero, suc, ◌≤◌, String, true, ◌≡◌, sym, ap, ◌∙◌, Option, some, List, [], ◌∷◌, ◌++◌, map, arith,
  ◌==◌, select, take, length, if◌then◌else◌, Bool-cases, inl, inr,
}
use tiny_aws.Prelude.Int.{ℤ, pos, negsuc}
use tiny_aws.Go.Fmt.{scan_int}
use tiny_aws.Go.Http.{json, status_ok}
use tiny_aws.Api.{
  Entry, Event, entry_of, audit_middleware, limit_in_range, scanned, limit_of, handle_audit_log,
}

-- The log after requests, the first of the list first.
unfoldable pub after : List Event → Option (List Entry) → Option (List Entry)
after [] log = log
after (e ∷ events) log = after events (audit_middleware e log)

-- the rows of requests, one for each whose row was written
unfoldable pub rows_of : List Event → List Entry
rows_of events = map entry_of (select (λ e. e.db_ok) events)

after-rows_of :
    (events : List Event) (log : List Entry)
    → after events (some log) ≡ some (log ++ rows_of events)
unfolding after rows_of audit_middleware select
after-rows_of [] log = ap some (sym (append-nil log))
after-rows_of (e ∷ events) log = elim (Bool-cases e.db_ok) [
  | inl w ↦ simp w (
      after-rows_of events (log ++ entry_of e ∷ [])
      ∙ ap some (append_assoc log (entry_of e ∷ []) (rows_of events)))
  | inr w ↦ simp w (after-rows_of events log)
]

range : (n : ℤ) → (1 ≤ limit_in_range n) × (limit_in_range n ≤ 1000)
range (pos n) = ground arith
range (negsuc n) = (omega arith, omega arith)

limit_of-range : (l : String) → (1 ≤ limit_of l) × (limit_of l ≤ 1000)
unfolding limit_of
limit_of-range l = range (if l == "" then pos 50 else scanned (scan_int l))

length-take : (n : ℕ) (rows : List Entry) → length (take n rows) ≤ n
length-take zero rows = omega arith
length-take (suc n) [] = omega arith
length-take (suc n) (r ∷ rows) = omega (arith, length-take n rows)

-- After any requests, the log is answered with the latest rows first: those of the requests, the
-- last request first and each once, if its row was written, and after them those that were there.
-- The answer is cut to a limit that is at least 1 and at most 1000, whatever the query asks for.
pub audit_newest_first :
    (l : String) (events : List Event) (log : List Entry)
    → let rows = take (limit_of l) (reverse (rows_of events) ++ reverse log) in
      (handle_audit_log true l (after events (some log)) ≡ json status_ok rows)
      × (1 ≤ limit_of l)
      × (limit_of l ≤ 1000)
      × (length rows ≤ limit_of l)
audit_newest_first l events log = (
  ap (handle_audit_log true l) (after-rows_of events log)
      ∙ (unfold handle_audit_log in
          ap (λ rows. json status_ok (take (limit_of l) rows))
            (reverse-append log (rows_of events))),
  (limit_of-range l).0,
  (limit_of-range l).1,
  length-take (limit_of l) _,
)
