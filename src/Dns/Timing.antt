-- ===== src/Dns/Timing.antt =====
-- The time that SetTXT takes: its polls, against the waits that the context allows.
use nitrokit.Prelude.{
  ℕ, zero, suc, ◌≡◌, ◌≢◌, ◌≤◌, ◌<◌, refl, arith, Bool, true, false, Option, none, some,
}
use nitrokit.Text.{Text, codes, text_beq}
use nitrokit.Result.{Result, ok, err, Io, ◌>>=◌, pure, wrapped, wrap}
use nitrokit.Result.Triple.{
  Outcome, Triple, Triple-pure, Triple->>=, Triple-call, Triple-given, Triple-map, Triple-return,
}
use nitrokit.SigV4.Sign.{Request, Primitives}
use nitrokit.Dns.{
  signed_request, payload_bytes, decoded, Aws, Context, Route53, ChangeInfo, call, change, poll,
  polled, submitted, wait_in_sync, set_txt, route53_poll_interval,
}

-- `left w` bounds the waits that the context still allows: a wait that it does not end uses one up, and
-- the calls of the client give none back.
pub record IsTimed {W : Type 0} (aws : Aws W) (context : Context W) (left : W → ℕ) : Type 0 where
  pub wait_uses :
      (w : W)
      → (context.wait route53_poll_interval w).0 ≡ false
      → left (context.wait route53_poll_interval w).1 < left w
  pub send_keeps : (req : Request) (body : Text) (w : W) → left (aws.send req body w).1 ≤ left w
  pub read_keeps :
      (req : Request) (body : Text) (w : W) (status : ℕ) (read_all : ℕ → Io W Text)
      → (aws.send req body w).0 ≡ ok (status, read_all)
      → (n : ℕ) (v : W) → left (read_all n v).1 ≤ left v

within_trans : {a b c : ℕ} → a ≤ b → b ≤ c → a ≤ c
within_trans h k = ground arith

le_of_lt_suc : {a b : ℕ} → a < suc b → a ≤ b
le_of_lt_suc h = ground arith

lt_suc_of_le : {a b : ℕ} → a ≤ b → a < suc b
lt_suc_of_le h = ground arith

wrapped_ends :
    {W A : Type 0} (P : W → Type 0) (what : Text) (x : Result A × W)
    → Outcome (λ a. P) P x
    → Outcome (λ a. P) P (wrap what x.0, x.1)
wrapped_ends P what (ok a, w) h = h
wrapped_ends P what (err e, w) h = h

decided_returns :
    {W : Type 0} (again : W → Option (Result (Unit {0})) × W) (synced ended : Bool) (w v : W)
    (e : Text)
    → (ended ≡ false → (again v).0 ≢ none)
    → (let out : Option (Result (Unit {0})) × W = elim synced [
      | true ↦ (some (ok tt), w)
      | false ↦ elim ended [ true ↦ (some (err e), v) | false ↦ again v ]
    ] in
        out.0 ≢ none)
decided_returns again true ended w v e k = ground arith
decided_returns again false true w v e k = ground arith
decided_returns again false false w v e k = k refl

module _ {W : Type 0} (aws : Aws W) (context : Context W) (p : Primitives) (r : Route53)
    (left : W → ℕ) (timed : IsTimed aws context left) where
  module _ (n : ℕ) where
    abbrev Within : W → Type 0
    Within w = left w ≤ n

    abbrev Gentle : (ℕ → Io W Text) → Type 0
    Gentle read_all = (k : ℕ) (v : W) → left (read_all k v).1 ≤ left v

    pure-Within : {A : Type 0} (x : Result A) → Triple Within (pure x) (λ a. Within) Within
    pure-Within x = Triple-map (λ w h. h) (λ a w (e, h). h) (λ w h. h) (Triple-pure x (λ w h. h))

    send-Within :
        (req : Request) (body : Text)
        → Triple Within (aws.send req body) (λ x w. Gentle x.1 × Within w) Within
    send-Within req body =
        Triple-call
          (λ w x h e.
            (timed.read_keeps req body w x.0 x.1 e, within_trans (timed.send_keeps req body w) h))
          (λ w x h e. within_trans (timed.send_keeps req body w) h)

    read-Within :
        (read_all : ℕ → Io W Text)
        → Gentle read_all
        → Triple Within (read_all 65_536) (λ b. Within) Within
    read-Within read_all gentle =
        Triple-call (λ w x h e. within_trans (gentle 65_536 w) h)
          (λ w x h e. within_trans (gentle 65_536 w) h)

    sent-Within :
        (req : Request) (body : Text)
        → Triple Within
            (do
              (status, read_all) ← aws.send req body
              answer ← read_all 65_536
              pure (decoded aws context p r status answer))
            (λ info. Within)
            Within
    sent-Within req body = Triple->>= (send-Within req body) (λ x.
        Triple-given (λ gentle. Triple->>= (read-Within x.1 gentle) (λ answer. pure-Within _)))

    call-Within :
        (method path : Text) (payload : Option Text)
        → Triple Within (call aws context p r method path payload) (λ info. Within) Within
    unfolding call
    call-Within method path payload = record {
      ends = λ w h.
          (Triple->>=
              (pure-Within (signed_request aws context p r method path payload (context.now w)))
              (λ req. sent-Within req (payload_bytes aws context p r payload))).ends
            w h;
    }

    wrapped-Within :
        {A : Type 0} (what : Text) (m : Io W A)
        → Triple Within m (λ a. Within) Within
        → Triple Within (wrapped what m) (λ a. Within) Within
    unfolding wrapped
    wrapped-Within what m h = record { ends = λ w q. wrapped_ends Within what (m w) (h.ends w q) }

    poll-Within : (id : Text) → Triple Within (poll aws context p r id) (λ info. Within) Within
    unfolding poll
    poll-Within id = wrapped-Within _ _ (call-Within _ _ none)

    change-Within :
        (action fqdn value : Text)
        → Triple Within (change aws context p r action fqdn value) (λ id. Within) Within
    unfolding change
    change-Within action fqdn value = Triple->>= (pure-Within _) (λ payload.
        Triple->>= (wrapped-Within _ _ (call-Within _ _ (some payload))) (λ info. Triple-return _))

  polled_returns :
      (id : Text) (again : W → Option (Result (Unit {0})) × W) (n : ℕ) (x : Result ChangeInfo × W)
      → ((v : W) → left v < n → (again v).0 ≢ none)
      → Outcome (λ info w. left w ≤ n) (λ w. left w ≤ n) x
      → (polled aws context p r id again x).0 ≢ none
  polled_returns id again n (err e, w) k h = ground arith
  polled_returns id again n (ok info, w) k h =
      decided_returns again (text_beq info.status (codes "INSYNC"))
        (context.wait route53_poll_interval w).0 w (context.wait route53_poll_interval w).1 _
        (λ e. k _ (ground (arith, timed.wait_uses w e)))

  wait_in_sync_returns :
      (polls : ℕ) (id : Text) (w : W)
      → left w < polls
      → (wait_in_sync aws context p r polls id w).0 ≢ none
  unfolding wait_in_sync
  wait_in_sync_returns zero id w h = elim h [ ]
  wait_in_sync_returns (suc polls) id w h =
      polled_returns id (wait_in_sync aws context p r polls id) polls (poll aws context p r id w)
        (λ v. wait_in_sync_returns polls id v) ((poll-Within polls id).ends w (ground arith))

  change_less :
      (polls : ℕ) (fqdn value : Text) (w : W)
      → left w < suc polls
      → Outcome
          (λ id v. left v < suc polls)
          (λ v. left v < suc polls)
          (change aws context p r (codes "UPSERT") fqdn value w)
  change_less polls fqdn value w h =
      (Triple-map (λ v. le_of_lt_suc) (λ a v. lt_suc_of_le) (λ v. lt_suc_of_le)
          (change-Within polls (codes "UPSERT") fqdn value)).ends
        w h

  submitted_returns :
      (polls : ℕ) (x : Result Text × W)
      → Outcome (λ id w. left w < polls) (λ w. left w < polls) x
      → (submitted aws context p r polls x).0 ≢ none
  submitted_returns polls (err e, w) h = ground arith
  submitted_returns polls (ok id, w) h = wait_in_sync_returns polls id w h

  -- If the context allows only so many waits between polls, then SetTXT returns within one poll more,
  -- whatever Route 53 answers: by success, by an error, or by the end of the context.
  pub set_txt_returns :
      (polls : ℕ) (fqdn value : Text) (w : W)
      → left w < polls
      → (set_txt aws context p r polls fqdn value w).0 ≢ none
  unfolding set_txt
  set_txt_returns (suc polls) fqdn value w h =
      submitted_returns (suc polls) (change aws context p r (codes "UPSERT") fqdn value w)
        (change_less polls fqdn value w h)
  set_txt_returns zero fqdn value w h = elim h [ ]
