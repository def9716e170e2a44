-- ===== src/Client/Wire.antt =====
-- The bytes between client.py and broker.py: `_request`, `_read_json` and `_send_json`. JSON is a
-- parameter: `dumps` with the encoding, and `loads` with the decoding, none being a JSONDecodeError.
use shared_concurrency_subst.Common.{
  ℕ, ◌≡◌, refl, String, List, [], ◌∷◌, ◌++◌, length, Option, none, some, leb, if◌then◌else◌,
  Bool-cases, inl, inr,
}
use shared_concurrency_subst.Broker.{Payload, Body, Response, read_json}
use shared_concurrency_subst.Client.{Reply, accepted, runtime_error, error_text, read_reply}

-- What `HTTPConnection.request` sends.
pub record HttpRequest : Type 0 where
  pub method : String
  pub path : String
  pub accept : String
  pub content_type : Option String
  pub content_length : Option ℕ
  pub body : List ℕ

pub record HttpResponse : Type 0 where
  pub status : ℕ
  pub content_type : String
  pub content_length : ℕ
  pub body : List ℕ

-- `request` gives this object, where `{}` is none, or raises.
pub data WireReply (Stamp : Type 0) : Type 0 where
  gives_object : Option (Body Stamp) → WireReply Stamp
  raises_error : ℕ → String → WireReply Stamp  -- `broker error {status}: {error}`

-- The first part of `_request`: what the client sends, for a payload or none.
module _ (dumps : Payload → List ℕ) where
  unfoldable pub request : String → String → Option Payload → HttpRequest
  request method path none = record {
    method = method;
    path = path;
    accept = "application/json";
    content_type = none;
    content_length = none;
    body = [];
  }
  request method path (some payload) = record {
    method = method;
    path = path;
    accept = "application/json";
    content_type = some "application/json";
    content_length = some (length (dumps payload));
    body = dumps payload;
  }

module _ {Stamp : Type 0} (dumps : Body Stamp → List ℕ) (loads : List ℕ → Option (Body Stamp)) where
  -- `_send_json`
  unfoldable pub send_json : ℕ → Body Stamp → HttpResponse
  send_json status payload = record {
    status = status;
    content_type = "application/json";
    content_length = length (dumps payload);
    body = dumps payload;
  }

  -- `json.loads(data) if data else {}`, and `{}` on a JSONDecodeError.
  unfoldable pub decoded : List ℕ → Option (Body Stamp)
  decoded [] = none
  decoded (b ∷ rest) = loads (b ∷ rest)

  abbrev error_of : Option (Body Stamp) → String
  error_of none = "request failed"
  error_of (some body) = error_text body

  -- The last part of `_request`.
  unfoldable pub read_response : HttpResponse → WireReply Stamp
  unfolding decoded
  read_response r =
      if leb 400 r.status
      then raises_error r.status (error_of (decoded r.body))
      else gives_object (decoded r.body)

  abbrev pub on_wire : Reply Stamp → WireReply Stamp
  on_wire (accepted body) = gives_object (some body)
  on_wire (runtime_error status text) = raises_error status text

  decoded-dumps :
      (body : Body Stamp)
      → loads (dumps body) ≡ some body
      → ¬ (dumps body ≡ [])
      → decoded (dumps body) ≡ some body
  unfolding decoded
  decoded-dumps body inverse some_bytes = by_bytes (dumps body) refl
    where
      by_bytes : (bs : List ℕ) → dumps body ≡ bs → decoded bs ≡ some body
      by_bytes [] e = absurd (some_bytes e)
      by_bytes (b ∷ bs) e = rw e at inverse

  -- The client reads from the bytes of a reply what the handler meant, if `json.loads` undoes
  -- `json.dumps` on the body and its text is not empty.
  pub read_response-send_json :
      (r : Response Stamp)
      → loads (dumps r.body) ≡ some r.body
      → ¬ (dumps r.body ≡ [])
      → read_response (send_json r.code r.body) ≡ on_wire (read_reply r)
  unfolding read_response send_json read_reply
  read_response-send_json r inverse some_bytes =
      let same = decoded-dumps r.body inverse some_bytes in
      elim (Bool-cases (leb 400 r.code)) [
        | inl bad ↦ rw (bad, same) refl
        | inr good ↦ rw (good, same) refl
      ]

-- The handler reads from a request what the client put into it, whatever comes after it on the
-- connection, if `rfile.read` gives the bytes that are asked for, `json.loads` undoes `json.dumps` on
-- the payload, and its text is not empty.
pub read_json-request :
    (dumps : Payload → List ℕ) (loads : List ℕ → Option Payload) (take_bytes : ℕ → List ℕ → List ℕ)
    → ((bytes more : List ℕ) → take_bytes (length bytes) (bytes ++ more) ≡ bytes)
    → (method path : String) (p : Payload) (more : List ℕ) → loads (dumps p) ≡ some p
    → ¬ (dumps p ≡ [])
    → let r = request dumps method path (some p) in
      read_json take_bytes loads r.content_length (r.body ++ more) ≡ p
unfolding request read_json
read_json-request dumps loads take_bytes takes method path p more inverse some_bytes =
    by_bytes (dumps p) refl
  where
    by_bytes :
        (bs : List ℕ)
        → dumps p ≡ bs
        → read_json take_bytes loads (some (length bs)) (bs ++ more) ≡ p
    by_bytes [] e = absurd (some_bytes e)
    by_bytes (b ∷ bs) e =
        let back : loads (b ∷ bs) ≡ some p = rw e at inverse in rw (takes (b ∷ bs) more, back) refl
