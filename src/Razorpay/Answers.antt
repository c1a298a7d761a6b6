-- ===== src/Razorpay/Answers.antt =====
-- What the API's answer to the creation of a link comes to.
use payment_recovery_opportu.Base.{
  ℕ, ◌≤◌, ◌<◌, ◌≡◌, refl, sym, String, Bool, true, false, ◌||◌, ◌&&◌, Option, none, some, leb, ltb,
  ◌==◌, if◌then◌else◌, inl, inr, Bool-cases, arith,
}
use payment_recovery_opportu.Models.{RecoveryDecision, PaymentRecord}
use payment_recovery_opportu.Session.{Error, Result, ok, err, transient, duplicate_reference}
use payment_recovery_opportu.Retry.{calculate_retry}
use payment_recovery_opportu.Session.Yields.{ok-eq, err≢ok}
use payment_recovery_opportu.Json.{Json, null, get, bind-ok, if-ok, ◌>>=◌, is_truthy, or_default}
use payment_recovery_opportu.Razorpay.Http.{
  HttpClient, HttpResponse, Reply, timeout, request_error, response, RequestBody,
  build_request_body, status_message, link_id, json_or,
}
use Prim.Native.String.{◌++◌}
use payment_recovery_opportu.Base.Text.{decimal}
use payment_recovery_opportu.Razorpay.Http.{is_passing}
use payment_recovery_opportu.Razorpay.Create.{
  http_error, is_duplicate_body, refused, created, on_reply, create_payment_link,
}

-- The errors that are worth another attempt: too many requests, and what the server is to blame for.
abbrev pub is_retried : ℕ → Bool
is_retried status = status == 429 || leb 500 status

http_error-retryable :
    (msg : String) (status attempt now draw : ℕ)
    → (calculate_retry attempt (http_error msg status) now draw).retryable
      ≡ (is_retried status && ltb attempt 5)
unfolding http_error calculate_retry
http_error-retryable msg status attempt now draw = ground arith

-- The body that a call sends, for a payment that there is.
abbrev pub Sends :
    HttpClient → ℕ → RecoveryDecision → Option PaymentRecord → String → Reply → Type 0
Sends c k d r ref reply =
    (body : RequestBody) × (build_request_body d r ref ≡ ok body) × (c.post k body ≡ reply)

pub create_payment_link-Sends :
    (c : HttpClient) (k : ℕ) (d : RecoveryDecision) (r : Option PaymentRecord) (ref : String)
    (reply : Reply)
    → Sends c k d r ref reply
    → create_payment_link c k d r ref ≡ on_reply c reply
unfolding create_payment_link
create_payment_link-Sends c k d r ref reply (body, built, answered) = rw built (rw answered refl)

-- An error status other than 400 is raised as an error that the retry policy tries again, below 5
-- attempts, exactly if the status is 429 or at least 500.
pub create_payment_link-retried :
    (c : HttpClient) (k : ℕ) (d : RecoveryDecision) (r : Option PaymentRecord) (ref : String)
    (a : HttpResponse)
    → Sends c k d r ref (response a)
    → 400 < a.status_code
    → (e : Error) × (create_payment_link c k d r ref ≡ err e)
      × ((attempt now draw : ℕ)
          → (calculate_retry attempt e now draw).retryable
            ≡ (is_retried a.status_code && ltb attempt 5))
unfolding on_reply refused
create_payment_link-retried c k d r ref a sent above = (
  http_error (status_message "Razorpay API" a) a.status_code,
  rw (create_payment_link-Sends c k d r ref (response a) sent) (ground arith),
  λ attempt now draw. http_error-retryable _ a.status_code attempt now draw,
)

-- A link that is there: a response below 400 with a JSON object that has a truthy id.
abbrev pub IsCreated : HttpClient → Reply → String → Type 0
IsCreated c reply id =
    (a : HttpResponse) × (j : Json) × (v : Option Json) × (reply ≡ response a)
    × (a.status_code < 400)
    × (a.json ≡ some j)
    × (get "id" j ≡ ok v)
    × (is_truthy c.floats (or_default v null) ≡ true)
    × (id ≡ c.str (or_default v null))

fails :
    (m : Result Bool) (e e' : Error) (id : String)
    → (m >>= λ t. if t then err e else err e') ≡ ok id
    → ⊥
fails (ok true) e e' id h = err≢ok h
fails (ok false) e e' id h = err≢ok h
fails (err x) e e' id h = err≢ok h

refused-fails : (c : HttpClient) (a : HttpResponse) (id : String) → refused c a ≡ ok id → ⊥
unfolding refused
refused-fails c a id h =
    let msg = status_message "Razorpay API" a in
    fails (if a.status_code == 400 then is_duplicate_body c a.json else ok false)
      (duplicate_reference msg "DUPLICATE_REFERENCE_ID") (http_error msg a.status_code) id h

json_or-ok : (o : Option Json) (e : Error) (j : Json) → json_or o e ≡ ok j → o ≡ some j
json_or-ok none e j h = absurd (err≢ok h)
json_or-ok (some k) e j h = cc

created-IsCreated :
    (c : HttpClient) (a : HttpResponse) (id : String)
    → a.status_code < 400
    → created c a ≡ ok id
    → IsCreated c (response a) id
unfolding created link_id
created-IsCreated c a id below h =
    let (j, there, rest) = bind-ok _ _ id h in
    let (v, got, named) = bind-ok _ _ id rest in
    let (truth, same) = if-ok _ _ _ id named in
    (a, j, v, refl, below, json_or-ok a.json _ j there, got, truth, sym (ok-eq same))

on_reply-IsCreated :
    (c : HttpClient) (reply : Reply) (id : String) → on_reply c reply ≡ ok id → IsCreated c reply id
unfolding on_reply
on_reply-IsCreated c (timeout e) id h = absurd (err≢ok h)
on_reply-IsCreated c (request_error e) id h = absurd (err≢ok h)
on_reply-IsCreated c (response a) id h = elim (Bool-cases (leb 400 a.status_code)) [
  | inl above ↦ absurd (refused-fails c a id (rw above at h))
  | inr below ↦ created-IsCreated c a id (ground arith) (rw below at h)
]

-- A call returns an id only where the payment is there, and the API has answered to the body built
-- for the decision with a status below 400 and a JSON object that has a truthy id, the one returned.
pub create_payment_link-IsCreated :
    (c : HttpClient) (k : ℕ) (d : RecoveryDecision) (r : Option PaymentRecord) (ref id : String)
    → create_payment_link c k d r ref ≡ ok id
    → (body : RequestBody) × (build_request_body d r ref ≡ ok body) × IsCreated c (c.post k body) id
unfolding create_payment_link
create_payment_link-IsCreated c k d r ref id h =
    let (body, built, answered) = bind-ok _ _ id h in
    (body, built, on_reply-IsCreated c (c.post k body) id answered)

-- A server error that the lists of statuses do not name.
pub record IsUnknown (a : HttpResponse) : Type 0 where
  pub server_error : 500 ≤ a.status_code
  pub unnamed : is_passing a.status_code ≡ false

pub on_reply-unknown :
    (c : HttpClient) (a : HttpResponse)
    → IsUnknown a
    → (msg type : String) × (on_reply c (response a) ≡ err (transient msg type))
unfolding on_reply refused http_error
on_reply-unknown c a unknown =
    let server = unknown.server_error in
    let unnamed = unknown.unnamed in
    (status_message "Razorpay API" a, "HTTP_" ++ decimal a.status_code ++ "_UNKNOWN", ground arith)
