-- ===== src/Cli/Queue/Pop.antt =====
-- control-plane/cli/queue.go with control-plane/messaging/sqs: a message that is received from the
-- command line.
use tiny_aws.Prelude.{
  ℕ, String, true, false, ◌||◌, ◌≡◌, refl, ap, ◌∙◌, some, List, [], ◌∷◌, All, ◌==◌,
}
use tiny_aws.Prelude.Int.{pos}
use tiny_aws.Cli.{
  HttpRequest, Answer, empty, auth_header, getenv, http_request, run, Env, ask_or, or_fail,
  check_status,
}
use tiny_aws.Cli.Queue.{QueueMessage, after_receive, queue_receive}
use tiny_aws.Go.Errors.{Result, ok}
use tiny_aws.Go.Http.{Response, json, error, no_body, status_ok}
use tiny_aws.Go.Text.{concat}
use tiny_aws.Go.Time.{Time}
use tiny_aws.Sqs.{Sqs, Io, Reply, Request, received, receive, delete, serve_all}
use tiny_aws.Sqs.Hidden.{Withholds}
use tiny_aws.Sqs.Visibility.{receive-hides, delete_final}

-- what comes over the wire of a response, with JSON written by `encode`
unfoldable pub answer_of : (Reply → String) → Response Reply → Answer
answer_of encode (json status r) = record { status = status; body = encode r }
answer_of encode (error status text) = record { status = status; body = concat (text ∷ "\n" ∷ []) }
answer_of encode (no_body status) = record { status = status; body = "" }

-- The client reads the message that the queue writes.
pub record IsRead (encode : Reply → String) (decode : String → Result QueueMessage)
    (id body : String) (count : ℕ) : Type 0 where
  pub reads : decode (encode (received id body count)) ≡ ok (record { id = id; body = body })
  pub not_null :
      (encode (received id body count) == "null\n" || encode (received id body count) == "null")
      ≡ false

-- The services give `GET /queues/<name>/messages` and `DELETE /queues/<name>/messages/<id>`, at the
-- address of the queue, to the handlers of these routes, at the time `now`.
pub record IsRouted (env : Env) (encode : Reply → String) (io : Io) (now : Time)
    (serve : HttpRequest → Sqs → Result Answer × Sqs) (name id : String) : Type 0 where
  pub receives :
      (s : Sqs)
      → serve
          (record {
            method = "GET";
            url = concat (
                getenv env "SQS_URL" "http://127.0.0.1:9003"
                ∷ "/queues/"
                ∷ name
                ∷ "/messages"
                ∷ []);
            body = empty;
            authorization = auth_header env;
          })
          s
        ≡ (ok (answer_of encode (receive io name now s).1), (receive io name now s).0)
  pub deletes :
      (s : Sqs)
      → serve
          (record {
            method = "DELETE";
            url = concat (
                getenv env "SQS_URL" "http://127.0.0.1:9003"
                ∷ "/queues/"
                ∷ name
                ∷ "/messages/"
                ∷ id
                ∷ []);
            body = empty;
            authorization = auth_header env;
          })
          s
        ≡ (ok (answer_of encode (delete true id s).1), (delete true id s).0)

module _ (env : Env) (encode : Reply → String) (decode : String → Result QueueMessage) (io : Io)
    (now : Time) (serve : HttpRequest → Sqs → Result Answer × Sqs) (files : String → Result String)
    (name id body : String) (count : ℕ) (s : Sqs) (read : IsRead encode decode id body count)
    (routed : IsRouted env encode io now serve name id) where
  -- what follows the answer that holds a message
  message_run :
      (t : Sqs)
      → run serve files
          (after_receive env decode name
            (answer_of encode (json status_ok (received id body count))))
          t
        ≡ record {
          state = (delete true id t).0;
          stdout = concat ("id: " ∷ id ∷ "\nbody: " ∷ body ∷ "\n" ∷ []) ∷ [];
          stderr = [];
          code = some (pos 0);
        }
  unfolding run check_status answer_of http_request
  message_run t = rw read.not_null (
      rw read.reads (
        ap
          (λ p. record {
            state = p.1;
            stdout = concat ("id: " ∷ id ∷ "\nbody: " ∷ body ∷ "\n" ∷ []) ∷ [];
            stderr = [];
            code = some (pos 0);
          })
          (routed.deletes t)))

  -- what the command leaves behind when a message is answered
  run-queue_receive :
      (receive io name now s).1 ≡ json status_ok (received id body count)
      → run serve files (queue_receive env decode name) s ≡ record {
        state = (delete true id (receive io name now s).0).0;
        stdout = concat ("id: " ∷ id ∷ "\nbody: " ∷ body ∷ "\n" ∷ []) ∷ [];
        stderr = [];
        code = some (pos 0);
      }
  unfolding run queue_receive ask_or http_request
  run-queue_receive answered =
      ap (λ p. run serve files (or_fail "error: " (after_receive env decode name) p.0) p.1)
        (routed.receives s)
      ∙ ap
          (λ r.
            run serve files (after_receive env decode name (answer_of encode r))
              (receive io name now s).0)
          answered
      ∙ message_run (receive io name now s).0

  -- A message that the queue answers with is printed, the command exits with 0, and no request that
  -- comes later is answered with that message. What the queue answers on its two routes is what
  -- their handlers do at the time `now`, where the update of the row and the deletion succeed.
  pub receive_pops :
      (rs : List Request)
      → io.update_ok ≡ true
      → (receive io name now s).1 ≡ json status_ok (received id body count)
      → let o = run serve files (queue_receive env decode name) s in
        (o.stdout ≡ concat ("id: " ∷ id ∷ "\nbody: " ∷ body ∷ "\n" ∷ []) ∷ [])
        × (o.code ≡ some (pos 0))
        × All (Withholds id) (serve_all rs o.state).1
  receive_pops rs updated answered = rw (run-queue_receive answered) (
    refl,
    refl,
    delete_final id (receive io name now s).0 rs
        (receive-hides io name now s id body count updated answered).present,
  )
