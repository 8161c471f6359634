-- ===== src/Dns.antt =====
-- dns.go: the solver for a Route 53 hosted zone. The HTTP client, the XML codec and the host are
-- arguments; the world `W` is their state. A wait is true if the context has ended first.
pub mod Sync
pub mod Timing
pub mod Sample
mod Tests
use nitrokit.Prelude.{
  ℕ, zero, suc, ◌*◌, ◌≡◌, Bool, true, false, ◌||◌, ◌==◌, Option, none, some, List, [], ◌∷◌, ◌++◌,
  pos, if◌then◌else◌,
}
use nitrokit.Text.{Text, codes, text_beq, trim_prefix}
use nitrokit.Clock.{Time, Duration, second}
use nitrokit.Env.{Environment}
use nitrokit.Result.{Result, ok, err, Io, ◌>>=◌, return, fail, pure, wrapped}
use nitrokit.SigV4.Sign.{Request, Primitives, Credentials, set, sign_v4}

pub record Route53 : Type 0 where
  pub zone_id : Text
  pub credentials : Credentials
  pub endpoint : Text
  pub client_timeout : Duration

unfoldable pub new_route53 : Environment → Text → Result Route53
new_route53 getenv zone_id =
    let access = getenv (codes "AWS_ACCESS_KEY_ID") in
    let secret = getenv (codes "AWS_SECRET_ACCESS_KEY") in
    if text_beq zone_id []
    then err (codes "nitrokit: Route 53 hosted zone ID is empty")
    else if text_beq access [] || text_beq secret []
    then err (
        codes
          "nitrokit: AWS_ACCESS_KEY_ID and AWS_SECRET_ACCESS_KEY must be set for the Route 53 solver")
    else ok (record {
      zone_id = zone_id;
      credentials = record {
        access_key = access;
        secret_key = secret;
        session_token = getenv (codes "AWS_SESSION_TOKEN");
      };
      endpoint = codes "https://route53.amazonaws.com";
      client_timeout = pos (30 * second);
    })

abbrev pub route53_ttl : ℕ
route53_ttl = 30

abbrev pub route53_poll_interval : Duration
route53_poll_interval = pos (5 * second)

pub record Record : Type 0 where
  pub action : Text
  pub name : Text
  pub kind : Text
  pub ttl : ℕ
  pub value : Text

pub record Change : Type 0 where
  pub xmlns : Text
  pub changes : List Record

pub record ChangeInfo : Type 0 where
  pub id : Text
  pub status : Text

-- encoding/xml on the two shapes, http.NewRequestWithContext without its body, the client's Do, whose
-- answer is the status and the reading of a number of bytes of the body at most, and the decimal
-- form of a status. The closing of a body is left out.
pub record Aws (W : Type 0) : Type 0 where
  pub marshal : Change → Result Text
  pub unmarshal : Text → Result ChangeInfo
  pub new_request : Text → Text → Result Request
  pub send : Request → Text → Io W (ℕ × (ℕ → Io W Text))
  pub itoa : ℕ → Text

-- The clock, a wait that the context may end, and why it has ended.
pub record Context (W : Type 0) : Type 0 where
  pub now : W → Time
  pub wait : Duration → W → Bool × W
  pub cause : W → Text

module _ {W : Type 0} (aws : Aws W) (context : Context W) (p : Primitives) (r : Route53) where
  -- signV4 panics on a header without a value, which no request here has; `none` is that panic.
  abbrev pub signed_or_panic : Option Request → Result Request
  signed_or_panic none = err (codes "runtime error: index out of range")
  signed_or_panic (some req) = ok req

  -- A payload that is nil is `none`.
  abbrev pub payload_bytes : Option Text → Text
  payload_bytes none = []
  payload_bytes (some b) = b

  -- A new request has no header.
  abbrev pub typed : Option Text → Request → Request
  typed none req = record req { header = [] }
  typed (some b) req = record req {
    header = set (codes "Content-Type") (codes "application/xml") [];
  }

  -- The request with its signature at a time.
  unfoldable pub signed_request : Text → Text → Option Text → Time → Result Request
  signed_request method path payload now = elim (aws.new_request method (r.endpoint ++ path)) [
    | err e ↦ err e
    | ok req ↦ signed_or_panic (
        sign_v4 p r.credentials (codes "us-east-1") (codes "route53") now (typed payload req)
          (payload_bytes payload))
  ]

  -- What the status and the body of an answer mean.
  unfoldable pub decoded : ℕ → Text → Result ChangeInfo
  decoded status body =
      if status == 200
      then aws.unmarshal body
      else err (codes "status " ++ aws.itoa status ++ codes ": " ++ body)

  unfoldable pub call : Text → Text → Option Text → Io W ChangeInfo
  unfolding signed_request decoded
  call method path payload w =
      (do
        req ← pure (signed_request method path payload (context.now w))
        (status, read_all) ← aws.send req (payload_bytes payload)
        body ← read_all 65_536
        pure (decoded status body))
        w

  unfoldable pub change_body : Text → Text → Text → Change
  change_body action fqdn value = record {
    xmlns = codes "https://route53.amazonaws.com/doc/2013-04-01/";
    changes =
        record {
          action = action;
          name = fqdn;
          kind = codes "TXT";
          ttl = route53_ttl;
          value = b'"' ∷ value ++ b'"' ∷ [];
        }
        ∷ [];
  }

  unfoldable pub change : Text → Text → Text → Io W Text
  unfolding change_body call
  change action fqdn value = do
    payload ← pure (aws.marshal (change_body action fqdn value))
    info ← wrapped (codes "route53 " ++ action ++ codes " " ++ fqdn) (
        call (codes "POST") (codes "/2013-04-01/hostedzone/" ++ r.zone_id ++ codes "/rrset/")
          (some payload))
    return (trim_prefix info.id (codes "/change/"))

  -- One poll of a change.
  unfoldable pub poll : Text → Io W ChangeInfo
  unfolding call
  poll id =
      wrapped (codes "route53 GetChange")
        (call (codes "GET") (codes "/2013-04-01/change/" ++ id) none)

  -- What waitInSync does after a poll, with its next round.
  abbrev pub polled :
      Text
      → (W → Option (Result (Unit {0})) × W)
      → Result ChangeInfo × W
      → Option (Result (Unit {0})) × W
  polled id again (err e, w) = (some (err e), w)
  polled id again (ok info, w) = elim (text_beq info.status (codes "INSYNC")) [
    | true ↦ (some (ok tt), w)
    | false ↦
        let (ended, w') = context.wait route53_poll_interval w in
        elim ended [
          | true ↦ (
            some (err (codes "route53 change " ++ id ++ codes " not INSYNC: " ++ context.cause w')),
            w',
          )
          | false ↦ again w'
        ]
  ]

  -- waitInSync for a number of polls at most: `none` if it has not returned by then.
  unfoldable pub wait_in_sync : ℕ → Text → W → Option (Result (Unit {0})) × W
  unfolding poll
  wait_in_sync zero id w = (none, w)
  wait_in_sync (suc polls) id w = polled id (wait_in_sync polls id) (poll id w)

  abbrev pub submitted : ℕ → Result Text × W → Option (Result (Unit {0})) × W
  submitted polls (err e, w) = (some (err e), w)
  submitted polls (ok id, w) = wait_in_sync polls id w

  unfoldable pub set_txt : ℕ → Text → Text → W → Option (Result (Unit {0})) × W
  unfolding change wait_in_sync
  set_txt polls fqdn value w = submitted polls (change (codes "UPSERT") fqdn value w)

  unfoldable pub cleanup_txt : Text → Text → Io W (Unit {0})
  unfolding change
  cleanup_txt fqdn value = do id ← change (codes "DELETE") fqdn value; return tt
