-- ===== src/Dns/Sample.antt =====
-- A small Route 53 for the tests, whose world is a number of waits.
use nitrokit.Prelude.{
  ℕ, zero, suc, ◌≡◌, ◌<◌, ◌≤◌, refl, subst, ap, arith, Bool, true, false, [], ◌∷◌, pos,
  if◌then◌else◌,
}
use nitrokit.Text.{Text, codes, text_beq, has_prefix, to_lower, join, hex}
use nitrokit.Result.{Result, ok, err, Io, ◌>>=◌, return, pure, wrapped}
use nitrokit.SigV4.Sign.{Request, Primitives, Credentials, sign_v4}
use nitrokit.Dict.{lookup, insert}
use nitrokit.Dns.{Aws, Context, Route53, poll}
use nitrokit.Dns.Timing.{IsTimed}

abbrev pub primitives : Primitives
primitives = record {
  sha256 = λ s. 1 ∷ [];
  hmac_sha256 = λ k s. 2 ∷ [];
  sorted = λ xs. xs;
  amz_format = λ t. codes "20250102T030405Z";
}

abbrev pub request : Request
request = record {
  method = codes "GET";
  host = [];
  url_host = codes "h";
  path = codes "/p";
  escaped_path = codes "/p";
  query = [];
  header = [];
}

abbrev pub credentials : Credentials
credentials = record { access_key = codes "A"; secret_key = codes "S"; session_token = codes "T" }

abbrev pub zone : Route53
zone = record {
  zone_id = codes "Z";
  credentials = credentials;
  endpoint = codes "https://e";
  client_timeout = pos 30;
}

-- The world is the number of waits until the change is in sync, and until the context ends.
abbrev pub status_at : ℕ → Text
status_at zero = codes "INSYNC"
status_at (suc w) = codes "PENDING"

abbrev pub wait_at : ℕ → Bool × ℕ
wait_at zero = (true, zero)
wait_at (suc w) = (false, w)

abbrev pub read_status : ℕ → Io ℕ Text
read_status n w = (ok (status_at w), w)

abbrev pub answering : Aws ℕ
answering = record {
  marshal = λ c. ok (codes "xml");
  unmarshal = λ body. ok (record { id = codes "/change/C"; status = body });
  new_request = λ method url. ok (record request { method = method });
  send = λ req body w. (ok (200, read_status), w);
  itoa = λ n. [];
}

abbrev pub failing : Aws ℕ
failing = record answering {
  send = λ req body w.
      ((if text_beq req.method (codes "GET") then err (codes "EOF") else ok (200, read_status)), w);
}

abbrev pub context : Context ℕ
context = record { now = λ w. 0; wait = λ d w. wait_at w; cause = λ w. codes "deadline exceeded" }

wait_at_uses : (w : ℕ) → (wait_at w).0 ≡ false → (wait_at w).1 < w
wait_at_uses zero h = ground arith
wait_at_uses (suc w) h = ground arith

abbrev pub reader : Result (ℕ × (ℕ → Io ℕ Text)) → ℕ → Io ℕ Text
reader (err e) = read_status
reader (ok (status, read_all)) = read_all

pub answering-IsTimed : IsTimed answering context (λ w. w)
answering-IsTimed = record {
  wait_uses = wait_at_uses;
  send_keeps = λ req body w. ground arith;
  read_keeps =
      λ req body w status read_all e n v. subst (λ f. (f n v).1 ≤ v) (ap reader e) (ground arith);
}

pub poll-answering :
    (id : Text) (w : ℕ)
    → poll answering context primitives zone id w
      ≡ (ok (record { id = codes "/change/C"; status = status_at w }), w)
unfolding poll lookup insert ◌>>=◌ return pure wrapped sign_v4 to_lower has_prefix join hex
poll-answering id w = refl
