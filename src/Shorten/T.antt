-- ===== src/Shorten/T.antt =====
-- shorten/t.go: the client of the short-link service. The web service, the JSON decoder and the
-- test download are parameters, and so are the texts: the program only compares them.
-- `none` in a result is the panic of an index out of range.
pub mod Shorts
pub mod Status
mod Examples
use mathlib.Core.Logic.{ite}
use zhiya.Prelude.{
  ℕ, zero, suc, ◌+◌, Bool, true, false, Option, none, some, List, [], ◌∷◌, ◌++◌, get_elem?,
  if◌then◌else◌,
}

pub record TConfig (Text : Type 0) : Type 0 where
  pub source : Text
  pub token : Text

-- The parameter that names the client to the service.
pub data Credential (Text : Type 0) : Type 0 where
  token : Text → Credential Text
  source : Text → Credential Text

-- What the program reads of a decoded answer: whether it has an `error_code`, and its `urls`,
-- if there are any, each with its `url_short`, if it has one.
pub record Answer (Text : Type 0) : Type 0 where
  pub has_error : Bool
  pub urls : Option (List (Option Text))

-- The state of T: the other fields never change.
pub record T (Text : Type 0) : Type 0 where
  pub config : TConfig Text
  pub short_enable : Bool

module _ {Text : Type 0} where
  -- `for k, v := range data`.
  unfoldable pub fill : List Text → ℕ → List (Option Text) → List Text → Option (List Text)
  fill links k [] ret = some ret
  fill links k (some short ∷ data') ret = fill links (k + 1) data' (ret ++ short ∷ [])
  fill links k (none ∷ data') ret = elim (get_elem? links k) [
    | none ↦ none
    | some link ↦ fill links (k + 1) data' (ret ++ link ∷ [])
  ]

  -- The part of `shorts` that has the `urls` of the answer.
  unfoldable pub read_urls : List Text → List (Option Text) → Option (List Text)
  read_urls [] data' = some []
  read_urls (link ∷ links) data' = fill (link ∷ links) 0 data' []

-- `request` is the web service: the body of its answer, or an error. `decode` is json.Unmarshal.
-- `probe` tells whether the test download has the status 200. `blank` is the empty text, and
-- `test_url` the variable TTestURL.
module _ {Text Body : Type 0} (dec : Discrete Text)
    (request : Credential Text → List Text → Option Body) (decode : Body → Option (Answer Text))
    (probe : Text → Bool) (blank test_url : Text) where
  -- The part of `API` after the choice of the parameter.
  unfoldable pub ask : Credential Text → List Text → Option Body
  ask who links = elim (request who links) [
    | none ↦ none
    | some b ↦ elim (decode b) [ none ↦ none | some rst ↦ if rst.has_error then none else some b ]
  ]

  unfoldable pub api : TConfig Text → List Text → Option Body
  api c links =
      ite (dec c.token blank) (ite (dec c.source blank) none (ask (source c.source) links))
        (ask (token c.token) links)

  -- The private `shorts`.
  unfoldable pub request_shorts : TConfig Text → List Text → Option (List Text)
  request_shorts c links = elim (api c links) [
    | none ↦ some links
    | some b ↦ elim (decode b) [
      | none ↦ some links
      | some rst ↦ elim rst.urls [ none ↦ some links | some data' ↦ read_urls links data' ]
    ]
  ]

  unfoldable pub shorts : T Text → List Text → Option (List Text)
  shorts t links = if t.short_enable then request_shorts t.config links else some links

  unfoldable pub short : T Text → Text → Option Text
  short t link = elim (shorts t (link ∷ [])) [ none ↦ none | some ret ↦ get_elem? ret 0 ]

  -- One round of `testStatus`, which the timer starts again and again.
  unfoldable pub test_status : T Text → Option (T Text)
  test_status t = elim (request_shorts t.config (test_url ∷ [])) [
    | none ↦ none
    | some ret ↦ elim (get_elem? ret 0) [
      | none ↦ none
      | some first ↦ some (
          ite (dec first test_url) (record t { short_enable = false })
            (record t { short_enable = probe first }))
    ]
  ]

  -- `NewT` and its `Init`.
  unfoldable pub new_t : TConfig Text → Option (T Text)
  new_t c = test_status (record { config = c; short_enable = true })
