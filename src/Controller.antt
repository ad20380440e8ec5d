-- ===== src/Controller.antt =====
-- control-plane/controller/main.go: the workspaces of terminated instances are removed. The map
-- `cleaned` is the list of identifiers whose workspace is removed.
pub mod Lasting
pub mod Reach
mod Examples
use tiny_aws.Prelude.{
  String, Bool, true, false, not, ◌&&◌, ◌||◌, ◌≡◌, ◌≢◌, refl, ap, ◌∙◌, Option, none, some, List, [],
  ◌∷◌, arith, ◌==◌, eq_iff, eq_refl, if◌then◌else◌, All, Bool-cases, inl, inr,
}

pub record Instance : Type 0 where
  pub id : String
  pub status : String

unfoldable pub is_cleaned : String → List String → Bool
is_cleaned id [] = false
is_cleaned id (x ∷ cleaned) = if x == id then true else is_cleaned id cleaned

-- The loop of `reconcileOnce`; `removes` says of an identifier whether `os.RemoveAll` of its
-- workspace succeeds. The result is `cleaned`, and the workspaces that were tried, in order.
unfoldable pub reconcile : (String → Bool) → List Instance → List String → List String × List String
reconcile removes [] cleaned = (cleaned, [])
reconcile removes (x ∷ xs) cleaned =
    let skip = not (x.status == "terminated") || is_cleaned x.id cleaned in
    let (cleaned', tried) =
      reconcile removes xs
        (if skip then cleaned else if removes x.id then x.id ∷ cleaned else cleaned) in
    (cleaned', if skip then tried else x.id ∷ tried)

-- The instances are `none` if the registry does not answer with a list.
unfoldable pub reconcile_once :
    (String → Bool) → Option (List Instance) → List String → List String × List String
reconcile_once removes none cleaned = (cleaned, [])
reconcile_once removes (some xs) cleaned = reconcile removes xs cleaned

-- a terminated instance of the identifier is in the list
unfoldable pub has_terminated : String → List Instance → Bool
has_terminated id [] = false
has_terminated id (x ∷ xs) = (x.id == id && x.status == "terminated") || has_terminated id xs

-- what one instance adds
added :
    (removes : String → Bool) (id : String) (x : Instance) (cleaned : List String)
    → is_cleaned id (
        if not (x.status == "terminated") || is_cleaned x.id cleaned
        then cleaned
        else if removes x.id
        then x.id ∷ cleaned
        else cleaned)
      ≡ (is_cleaned id cleaned || (removes id && (x.id == id && x.status == "terminated")))
unfolding is_cleaned
added removes id x cleaned = elim (Bool-cases (x.id == id)) [
  | inl e ↦ let same : x.id ≡ id = (eq_iff x.id id).0 e in ground (arith, same, e)
  | inr e ↦ ground (arith, e)
]

reconcile-cleaned :
    (removes : String → Bool) (id : String) (xs : List Instance) (cleaned : List String)
    → is_cleaned id (reconcile removes xs cleaned).0
      ≡ (is_cleaned id cleaned || (removes id && has_terminated id xs))
unfolding reconcile is_cleaned has_terminated
reconcile-cleaned removes id [] cleaned = ground arith
reconcile-cleaned removes id (x ∷ xs) cleaned = elim (Bool-cases (x.id == id)) [
  | inl e ↦
      let same : x.id ≡ id = (eq_iff x.id id).0 e in
      rw e (
        reconcile-cleaned removes id xs _
        ∙ ap (λ b. b || (removes id && has_terminated id xs)) (added removes id x cleaned)
        ∙ ground (arith, e))
  | inr e ↦ rw e (
      reconcile-cleaned removes id xs _
      ∙ ap (λ b. b || (removes id && has_terminated id xs)) (added removes id x cleaned)
      ∙ ground (arith, e))
]

-- After a pass, the workspaces that count as removed are those that did before, and those of the
-- terminated instances whose removal succeeds.
pub reconcile_cleans_terminated :
    (removes : String → Bool) (xs : List Instance) (cleaned : List String) (id : String)
    → is_cleaned id (reconcile_once removes (some xs) cleaned).0
      ≡ (is_cleaned id cleaned || (removes id && has_terminated id xs))
unfolding reconcile_once
reconcile_cleans_terminated removes xs cleaned id = reconcile-cleaned removes id xs cleaned

tried_or :
    (id k : String) (skip : Bool) (tried : List String)
    → is_cleaned id (if skip then tried else k ∷ tried)
      ≡ (is_cleaned id tried || (not skip && k == id))
unfolding is_cleaned
tried_or id k true tried = ground arith
tried_or id k false tried = ground arith

-- A pass tries the workspaces of the terminated instances, but for those removed before it.
pub reconcile_tries_terminated :
    (removes : String → Bool) (xs : List Instance) (cleaned : List String) (id : String)
    → is_cleaned id (reconcile_once removes (some xs) cleaned).1
      ≡ (has_terminated id xs && not (is_cleaned id cleaned))
unfolding reconcile_once reconcile has_terminated is_cleaned
reconcile_tries_terminated removes [] cleaned id = refl
reconcile_tries_terminated removes (x ∷ xs) cleaned id =
    let next =
      if not (x.status == "terminated") || is_cleaned x.id cleaned
      then cleaned
      else if removes x.id
      then x.id ∷ cleaned
      else cleaned in
    let rest = reconcile_tries_terminated removes xs next id in
    let before = added removes id x cleaned in
    tried_or id x.id _ (reconcile removes xs next).1 ∙ (elim (Bool-cases (x.id == id)) [
      | inl e ↦ let same = ap (λ k. is_cleaned k cleaned) ((eq_iff x.id id).0 e) in ground arith
      | inr e ↦ ground arith
    ])
