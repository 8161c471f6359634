-- ===== src/DnsCert.antt =====
-- dnscert.go: the manager of one wildcard certificate. The certificate authority, the solver, the key
-- pairs, the files and the host are arguments, the five records below: the state of all of them is
-- the world `W`, and so are the contexts, whose end is seen in the answers.
pub mod Store
pub mod Obtain
pub mod Names
pub mod Recorded
pub mod Challenges
pub mod Removal
pub mod Laws
pub mod Reading
pub mod Saving
pub mod Crash
pub mod Restart
pub mod Renewal
pub mod Propagation
pub mod Forward
pub mod Issuing
pub mod Uptime
pub mod Sample
mod UptimeTests
mod Tests
use nitrokit.Prelude.{
  ℕ, ◌*◌, ◌<◌, ◌≡◌, Bool, true, false, not, ◌&&◌, Option, none, some, List, [], ◌∷◌, ◌++◌, ltb,
  if◌then◌else◌, pos,
}
use nitrokit.Text.{Text, codes, text_beq, trim_prefix, trim_suffix, to_lower, cut}
use nitrokit.Clock.{Time, Duration, second, minute}
use nitrokit.Result.{Result, Io}

-- The certificate of the leaf and the ones above it, as DER; an authority that issues one gives a
-- chain that is not empty, so that der[0] is there.
pub record Chain : Type 0 where
  pub first : Text
  pub rest : List Text

-- tls.Certificate; of the parsed leaf, its NotAfter.
pub record Certificate (K : Type 0) : Type 0 where
  pub chain : Chain
  pub key : K
  pub not_after : Time

pub record DnsCert (K : Type 0) : Type 0 where
  pub domain : Text
  pub base : Text
  pub cache_dir : Text
  pub email : Text
  pub directory_url : Text
  pub cert : Option (Certificate K)

abbrev pub hour : ℕ
hour = 60 * minute

abbrev pub renew_before : Duration
renew_before = pos (30 * 24 * hour)

abbrev pub renew_interval : Duration
renew_interval = pos (12 * hour)

abbrev pub retry_interval : Duration
retry_interval = pos hour

-- DNSSolver
pub record Solver (W : Type 0) : Type 0 where
  pub set_txt : Text → Text → Io W (Unit {0})
  pub cleanup_txt : Text → Text → Io W (Unit {0})

pub data Registered : Type 0 where
  registered account_exists : Registered
  refused : Text → Registered

pub record AcmeOrder : Type 0 where
  pub authz_urls : List Text
  pub finalize_url : Text

pub record Challenge : Type 0 where
  pub kind : Text
  pub token : Text

pub record Authorization : Type 0 where
  pub status_valid : Bool
  pub identifier : Text
  pub challenges : List Challenge

-- acme.Client
pub record Client (K : Type 0) : Type 0 where
  pub key : K
  pub directory_url : Text

-- The calls of acme.Client that are used.
pub record Authority (W K : Type 0) : Type 0 where
  pub register : Client K → List Text → W → Registered × W
  pub authorize_order : Client K → Text → Io W AcmeOrder
  pub get_authorization : Client K → Text → Io W Authorization
  pub dns01_record : Client K → Text → Result Text
  pub accept : Client K → Challenge → Io W (Unit {0})
  pub wait_authorization : Client K → Text → Io W (Unit {0})
  pub create_order_cert : Client K → Text → Text → Io W Chain

pub record Block : Type 0 where
  pub kind : Text
  pub bytes : Text

-- ecdsa, x509 and pem. Of a parsed certificate the NotAfter is kept.
pub record Keys (W K : Type 0) : Type 0 where
  pub generate_key : Io W K
  pub create_request : Text → K → Io W Text
  pub marshal_key : K → Result Text
  pub parse_key : Text → Result K
  pub parse_certificate : Text → Result Time
  pub pem_encode : Block → Text
  pub pem_decode : Text → Option (Block × Text)

-- os and filepath. A name of a temporary file stands for the open file too.
pub record FileSystem (W : Type 0) : Type 0 where
  pub join : Text → Text → Text
  pub read_file : Text → Io W Text
  pub mkdir_all : Text → Io W (Unit {0})
  pub write_file : Text → Text → Io W (Unit {0})
  pub create_temp : Text → Text → Io W Text
  pub chmod : Text → Io W (Unit {0})
  pub write : Text → Text → Io W (Unit {0})
  pub close : Text → Io W (Unit {0})
  pub remove : Text → Io W (Unit {0})
  pub rename : Text → Text → Io W (Unit {0})

-- The clock, the log, whether the context is done, and a wait that the context may end: true if it
-- has.
pub record Host (W : Type 0) : Type 0 where
  pub now : W → Time
  pub logf : Text → W → W
  pub cancelled : W → Bool
  pub wait : Duration → W → Bool × W

unfoldable pub matches : {K : Type 0} → DnsCert K → Text → Bool
matches m server_name =
    let name = to_lower (trim_suffix server_name (codes ".")) in
    elim (cut b'.' name) [
      | none ↦ false
      | some (label, rest) ↦ not (text_beq label []) && text_beq rest m.base
    ]

pub data CertError : Type 0 where
  not_obtained : Text → CertError
  expired : Text → Time → CertError

pub data Handshake (K : Type 0) : Type 0 where
  serves : Certificate K → Handshake K
  refuses : CertError → Handshake K

unfoldable pub certificate : {K : Type 0} → DnsCert K → Time → Handshake K
certificate m now = elim m.cert [
  | none ↦ refuses (not_obtained m.domain)
  | some c ↦ if ltb c.not_after now then refuses (expired m.domain c.not_after) else serves c
]
