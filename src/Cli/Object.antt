-- ===== src/Cli/Object.antt =====
-- control-plane/cli/object.go and bucket.go: objects and buckets from the command line.
use tiny_aws.Prelude.{
  String, Bool, true, false, ◌&&◌, Option, none, some, List, [], ◌∷◌, ◌==◌, if◌then◌else◌,
}
use tiny_aws.Cli.{
  raw, empty, Program, print, warn, send, read_file, done, failed, usage, Env, object_store_url,
  http_request, ask, ask_or, check_status,
}
use tiny_aws.Go.Bytes.{len}
use tiny_aws.Go.Errors.{Result, ok, err}
use tiny_aws.Go.Fmt.{decimal}
use tiny_aws.Go.Text.{concat}

pub record ObjectArgs : Type 0 where
  pub bucket : String
  pub key : String
  pub content : String

unfoldable pub object_url : Env → String → String → String
object_url env bucket key =
    if bucket == ""
    then concat (object_store_url env ∷ "/objects/" ∷ key ∷ [])
    else concat (object_store_url env ∷ "/buckets/" ∷ bucket ∷ "/objects/" ∷ key ∷ [])

-- the flag whose value is awaited
pub data Flag : Type 0 where
  bucket_flag : Flag
  data_flag : Flag
  file_flag : Flag

unfoldable pub flag_of : String → Option Flag
flag_of arg =
    if arg == "--bucket"
    then some bucket_flag
    else if arg == "--data"
    then some data_flag
    else if arg == "--file"
    then some file_flag
    else none

unfoldable pub missing_value : Flag → String
missing_value bucket_flag = "--bucket requires a value"
missing_value data_flag = "--data requires a value"
missing_value file_flag = "--file requires a path"

abbrev pub or_read_error : (String → Program) → Result String → Program
or_read_error next (err e) = warn (concat ("read file: " ∷ e ∷ "\n" ∷ [])) failed
or_read_error next (ok content) = next content

-- the end of `parseObjectArgs`
unfoldable pub parsed_args : Bool → (ObjectArgs → Program) → ObjectArgs → Program
parsed_args need_data next o =
    if need_data && o.content == "" then usage "put requires --data or --file" else next o

-- The loop of `parseObjectArgs`, where a file is read as soon as its flag is met.
unfoldable pub object_flags :
    Bool → (ObjectArgs → Program) → Option Flag → List String → ObjectArgs → Program
object_flags need_data next none [] o = parsed_args need_data next o
object_flags need_data next (some flag) [] o = usage (missing_value flag)
object_flags need_data next none (arg ∷ args) o = object_flags need_data next (flag_of arg) args o
object_flags need_data next (some bucket_flag) (value ∷ args) o =
    object_flags need_data next none args (record o { bucket = value })
object_flags need_data next (some data_flag) (value ∷ args) o =
    object_flags need_data next none args (record o { content = value })
object_flags need_data next (some file_flag) (value ∷ args) o = read_file value (
    or_read_error
      (λ content. object_flags need_data next none args (record o { content = content })))

unfoldable pub parse_object_args : Bool → (ObjectArgs → Program) → List String → Program
parse_object_args need_data next [] =
    usage "usage: tinyaws object put|get <key> [--bucket name] [--data text] [--file path]"
parse_object_args need_data next (key ∷ args) =
    object_flags need_data next none args (record { bucket = ""; key = key; content = "" })

-- `quote` is the verb `%q`; a text of data has a character for each byte.
module _ (quote : String → String) (env : Env) where
  abbrev uploaded : ObjectArgs → String
  uploaded o =
      if o.bucket == ""
      then concat
          ("uploaded object " ∷ quote o.key ∷ " (" ∷ decimal (len o.content) ∷ " bytes)\n" ∷ [])
      else concat (
          "uploaded "
          ∷ quote o.key
          ∷ " to bucket "
          ∷ quote o.bucket
          ∷ " ("
          ∷ decimal (len o.content)
          ∷ " bytes)\n"
          ∷ [])

  unfoldable pub run_object_put : List String → Program
  run_object_put args =
      parse_object_args true
        (λ o.
          ask (http_request env "PUT" (object_url env o.bucket o.key) (raw o.content))
            (λ a. check_status "put" a (print (uploaded o) done)))
        args

  unfoldable pub run_object_get : List String → Program
  run_object_get args =
      parse_object_args false
        (λ o.
          ask (http_request env "GET" (object_url env o.bucket o.key) empty)
            (λ a. check_status "get" a (print a.body done)))
        args

  unfoldable pub run_object : List String → Program
  run_object [] = usage "usage: tinyaws object put|get ..."
  run_object (command ∷ args) =
      if command == "put"
      then run_object_put args
      else if command == "get"
      then run_object_get args
      else usage "usage: tinyaws object put|get ..."

  unfoldable pub run_bucket_create : List String → Program
  run_bucket_create [] = usage "usage: tinyaws bucket create <name>"
  run_bucket_create (name ∷ args) =
      ask (http_request env "PUT" (concat (object_store_url env ∷ "/buckets/" ∷ name ∷ [])) empty)
        (λ a.
          check_status "create" a
            (print (concat ("created bucket " ∷ quote name ∷ "\n" ∷ [])) done))

-- `ensureBucket`, whose answer is dropped
unfoldable pub ensure_bucket : Env → String → Program → Program
ensure_bucket env name next =
    send (http_request env "PUT" (concat (object_store_url env ∷ "/buckets/" ∷ name ∷ [])) empty)
      (λ r. next)

-- `uploadObject`
unfoldable pub upload_object : Env → String → String → String → Program → Program
upload_object env bucket key content next =
    ask_or "upload failed: " (http_request env "PUT" (object_url env bucket key) (raw content))
      (λ a. check_status "upload" a next)

pub record BucketRecord : Type 0 where
  pub name : String
  pub created_at : String

unfoldable pub print_buckets : List BucketRecord → Program
print_buckets [] = done
print_buckets (b ∷ buckets) =
    print (concat (b.name ∷ "  created=" ∷ b.created_at ∷ "\n" ∷ [])) (print_buckets buckets)

abbrev listed_buckets : Result (List BucketRecord) → Program
listed_buckets (err e) = warn (concat ("decode: " ∷ e ∷ "\n" ∷ [])) failed
listed_buckets (ok buckets) = print_buckets buckets

-- `decode` is `json.Unmarshal` into a list of buckets.
module _ (decode : String → Result (List BucketRecord)) (quote : String → String) (env : Env) where
  unfoldable pub run_bucket_list : Program
  run_bucket_list =
      ask (http_request env "GET" (concat (object_store_url env ∷ "/buckets" ∷ [])) empty)
        (λ a. check_status "list" a (listed_buckets (decode a.body)))

  unfoldable pub run_bucket : List String → Program
  run_bucket [] = usage "usage: tinyaws bucket create|list ..."
  run_bucket (command ∷ args) =
      if command == "create"
      then run_bucket_create quote env args
      else if command == "list"
      then run_bucket_list
      else usage "usage: tinyaws bucket create|list ..."
