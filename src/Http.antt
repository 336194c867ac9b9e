-- ===== src/Http.antt =====
-- pkg/http/client.go: what a request to the registry brings back. The round trip over the network is
-- the caller's: whether the request could be built, and the response, if there is one.
use tsf_go.Base.{
  ℕ, String, List, Option, none, some, Bool, true, false, nat_eqb, if◌then◌else◌, text_comparable,
}

abbrev pub Header : Type 0
Header = List (String × String)

-- An HTTP response: a body that cannot be read is `none`.
pub record Response : Type 0 where
  pub status : ℕ
  pub header : Header
  pub body : Option String

-- An error with the response's status, or any other one.
pub data Failure : Type 0 where
  refused : ℕ → Failure
  broken : Failure

-- What Do returns, and what stands in the variable for the body afterwards.
pub record Reply {ℓ} (A : Type ℓ) : Type ℓ where
  pub header : Option Header
  pub content : Option A
  pub err : Option Failure

module _ {ℓ} {A : Type ℓ} where
  -- `body` is decoded when the status is 200: into what stands in the variable, and whether there is an
  -- error; json.Unmarshal fills it in part when a type does not fit.
  unfoldable pub read_body : (String → Option A × Bool) → Header → Option String → Reply A
  read_body decode h none = record { header = some h; content = none; err = some broken }
  read_body decode h (some text) = record {
    header = some h;
    content = (decode text).0;
    err = if (decode text).1 then some broken else none;
  }

  unfoldable pub read_response : (String → Option A × Bool) → Option Response → Reply A
  unfolding read_body
  read_response decode none = record { header = none; content = none; err = some broken }
  read_response decode (some r) =
      if nat_eqb r.status 200
      then read_body decode r.header r.body
      else record { header = some r.header; content = none; err = some (refused r.status) }

  -- Client.Do, of a request body that may not marshal and a URL that may not parse.
  unfoldable pub do_request : (String → Option A × Bool) → Bool → Bool → Option Response → Reply A
  unfolding read_response
  do_request decode false built response = record {
    header = none;
    content = none;
    err = some broken;
  }
  do_request decode true false response = record {
    header = none;
    content = none;
    err = some broken;
  }
  do_request decode true true response = read_response decode response

-- errors.IsNotFound
abbrev pub is_not_found : Failure → Bool
is_not_found (refused code) = nat_eqb code 404
is_not_found broken = false
