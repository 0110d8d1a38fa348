-- ===== src/KeyEvents/Bound.antt =====
-- What is known of a key that is taken from an event, and what a refused event changes.
use sentinelmesh.Common.{
  ℕ, String, true, ◌&&◌, List, Option, none, some, ◌≡◌, ap, inr, ◌==◌, eqb, arith, eq_iff, length,
  and_then-some, only_if-some, try_then-inr, require-inr, or_throw, is_number, number_from,
  to_lower,
}
use sentinelmesh.Validation.{NostrEvent, is_lowercase_hex64}
use sentinelmesh.Backup.{NostrKeypair}
use sentinelmesh.KeyEvents.{
  KeyServices, PackageJson, circle_key_event_kind, circle_key_event_type, decode_raw_b64, lone_tag,
  is_text, is_value, is_bound, key_epoch_of, is_package, open_package,
}

is_text-eq : (o : Option String) (s : String) → is_text o s ≡ true → o ≡ some s
is_text-eq none s h = absurd (ground arith)
is_text-eq (some t) s h = ap some ((eq_iff t s).0 h)

or_throw-inr :
    {A : Type 0} (o : Option A) (message : String) {a : A} → or_throw o message ≡ inr a → o ≡ some a
or_throw-inr none message h = absurd (ground arith)
or_throw-inr (some b) message h = ground (arith, h)

-- The event is signed by the owner, and its tags name the type, the circle, this recipient and the epoch, each in one tag.
pub record IsEnvelope (services : KeyServices) (keypair : NostrKeypair)
    (circle_id owner_pubkey : String) (event : NostrEvent) (key_epoch : ℕ) : Type 0 where
  pub owner : is_lowercase_hex64 owner_pubkey ≡ true
  pub verified : services.verify event ≡ true
  pub kind : event.kind ≡ circle_key_event_kind
  pub signed : event.pubkey ≡ to_lower owner_pubkey
  pub type_tag : lone_tag event "d" ≡ some circle_key_event_type
  pub circle_tag : lone_tag event "circle" ≡ some circle_id
  pub recipient_tag : lone_tag event "p" ≡ some (to_lower keypair.public_key)
  pub epoch : String
  pub epoch_tag : lone_tag event "epoch" ≡ some epoch
  pub digits : is_number epoch ≡ true
  pub names : number_from 0 epoch ≡ key_epoch

pub key_epoch-IsEnvelope :
    (services : KeyServices) (keypair : NostrKeypair) (circle_id owner_pubkey : String)
    (event : NostrEvent) (key_epoch : ℕ)
    → key_epoch_of services keypair circle_id owner_pubkey event ≡ inr key_epoch
    → IsEnvelope services keypair circle_id owner_pubkey event key_epoch
unfolding key_epoch_of
key_epoch-IsEnvelope services keypair circle_id owner_pubkey event key_epoch h =
    let (owner, a) = require-inr (is_lowercase_hex64 owner_pubkey) _ _ h in
    let (verified, b) =
      require-inr (services.verify event && eqb event.kind circle_key_event_kind) _ _ a in
    let (signed, c) = require-inr (event.pubkey == to_lower owner_pubkey) _ _ b in
    let (bound, d) = require-inr (is_bound keypair circle_id event) _ _ c in
    let (epoch, e, f) = try_then-inr (or_throw (lone_tag event "epoch") _) _ d in
    let (digits, g) = require-inr (is_number epoch) _ _ f in
    record {
      owner = owner;
      verified = ground (arith, verified);
      kind = ground (arith, verified);
      signed = (eq_iff event.pubkey (to_lower owner_pubkey)).0 signed;
      type_tag = is_text-eq _ circle_key_event_type (ground (arith, bound));
      circle_tag = is_text-eq _ circle_id (ground (arith, bound));
      recipient_tag = is_text-eq _ (to_lower keypair.public_key) (ground (arith, bound));
      epoch = epoch;
      epoch_tag = or_throw-inr (lone_tag event "epoch") _ e;
      digits = digits;
      names = ground (arith, g);
    }

-- The content decrypts to a package for this circle and epoch, which holds this key of 32 bytes.
pub record IsPackage (services : KeyServices) (shared : List ℕ) (circle_id content : String)
    (key_epoch : ℕ) (raw_key : List ℕ) : Type 0 where
  pub plaintext : String
  pub decrypts : services.nip44_decrypt content shared ≡ some plaintext
  pub value : PackageJson
  pub parses : services.parse_package plaintext ≡ some value
  pub package_type : value.package_type ≡ some circle_key_event_type
  pub circle : value.circle_id ≡ some circle_id
  pub epoch : value.key_epoch ≡ some key_epoch
  pub algorithm : value.algorithm ≡ some "AES-256-GCM"
  pub text : String
  pub key : value.key ≡ some text
  pub bytes : services.keys.browser.atob text ≡ some raw_key
  pub long : length raw_key ≡ 32

is_value-eq : (o : Option ℕ) (n : ℕ) → is_value o n ≡ true → o ≡ some n
is_value-eq none n h = absurd (ground arith)
is_value-eq (some m) n h = ap some (ground (arith, h))

pub open_package-IsPackage :
    (services : KeyServices) (shared : List ℕ) (circle_id content : String) (key_epoch : ℕ)
    (raw_key : List ℕ)
    → open_package services shared circle_id key_epoch content ≡ some raw_key
    → IsPackage services shared circle_id content key_epoch raw_key
unfolding open_package decode_raw_b64
open_package-IsPackage services shared circle_id content key_epoch raw_key h =
    let (plaintext, decrypts, a) = and_then-some (services.nip44_decrypt content shared) _ h in
    let (v, parses, b) = and_then-some (services.parse_package plaintext) _ a in
    let (fits, c) = only_if-some (is_package circle_id key_epoch v) _ b in
    let (text, key, d) = and_then-some v.key _ c in
    let (raw, bytes, e) = and_then-some (services.keys.browser.atob text) _ d in
    let (long, f) = only_if-some (eqb (length raw) 32) _ e in
    let same : raw ≡ raw_key = ground (arith, f) in
    record {
      plaintext = plaintext;
      decrypts = decrypts;
      value = v;
      parses = parses;
      package_type = is_text-eq _ circle_key_event_type (ground (arith, fits));
      circle = is_text-eq _ circle_id (ground (arith, fits));
      epoch = is_value-eq _ key_epoch (ground (arith, fits));
      algorithm = is_text-eq _ "AES-256-GCM" (ground (arith, fits));
      text = text;
      key = key;
      bytes = ground (arith, bytes, same);
      long = ground (arith, long, same);
    }
