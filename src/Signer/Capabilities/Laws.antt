-- ===== src/Signer/Capabilities/Laws.antt =====
-- The signer that the chat uses is that of the active mode, or none.
use sentinelmesh.Common.{
  String, true, some, ◌⊎◌, inl, inr, ◌≡◌, refl, arith, Bool-cases, subst, sym, Option-cases,
}
use sentinelmesh.Signer.{
  SignerMode, SignerStatus, World, Remote, ready, connecting, offline, authorization_required,
  error, bunker, nip07, local,
}
use sentinelmesh.Signer.Capabilities.{
  NostrSigner, Nostr07Extension, Environment, create_local_nostr_signer, nip07_encrypt,
  nip07_decrypt, nip07_nostr_signer, bunker_signer_of, is_ready, bunker_nostr_signer,
  local_nostr_signer, nip07_encryption_available, signer_for, get_nostr_signer, IsSignerOf,
}

is_ready-eq : (status : SignerStatus) → is_ready status ≡ true → status ≡ ready
is_ready-eq ready h = refl
is_ready-eq connecting h = absurd (ground arith)
is_ready-eq offline h = absurd (ground arith)
is_ready-eq authorization_required h = absurd (ground arith)
is_ready-eq error h = absurd (ground arith)

no_encryption :
    (ext : Nostr07Extension)
    → (nip07_encryption_available (some ext) ≡ true)
      ⊎ ((peer text : String)
          → (nip07_encrypt ext peer text ≡ inl "NIP-07 extension does not support NIP-44")
            × (nip07_decrypt ext peer text ≡ inl "NIP-07 extension does not support NIP-44"))
unfolding nip07_encryption_available nip07_encrypt nip07_decrypt
no_encryption ext = elim (Option-cases ext.nip44) [
  | inl e ↦ inr (λ peer text. (rw e refl, rw e refl))
  | inr (nip44, e) ↦ inl (rw e refl)
]

abbrev IsGood : Environment → World → SignerMode → String ⊎ NostrSigner → Type 0
IsGood env w mode (inl message) = Unit
IsGood env w mode (inr s) = (s.mode ≡ mode) × IsSignerOf env w s mode

open_session :
    (env : Environment) (w : World) (r : Remote)
    → is_ready w.identity.status ≡ true
    → w.remote ≡ some r
    → signer_for env w bunker ≡ inr (bunker_signer_of (env.sessions r.session))
unfolding signer_for bunker_nostr_signer
open_session env w r h e = ground (arith, h, e)

signer_for-IsGood :
    (env : Environment) (w : World) (mode : SignerMode) → IsGood env w mode (signer_for env w mode)
unfolding signer_for bunker_nostr_signer local_nostr_signer create_local_nostr_signer
    nip07_nostr_signer
signer_for-IsGood env w local = (refl, ((λ t. refl), refl))
signer_for-IsGood env w nip07 = elim (Option-cases env.extension) [
  | inl e ↦ rw (e, signer_for) tt
  | inr (ext, e) ↦ rw (e, signer_for) (refl, (ext, refl, refl, (λ t. refl), no_encryption ext))
]
signer_for-IsGood env w bunker = elim (Bool-cases (is_ready w.identity.status)) [
  | inr e ↦ rw (e, signer_for) tt
  | inl ready_now ↦ elim (Option-cases w.remote) [
    | inl e ↦ rw (ready_now, e, signer_for) tt
    | inr (r, e) ↦
        subst (IsGood env w bunker) (sym (open_session env w r ready_now e))
          (refl, (r, e, is_ready-eq w.identity.status ready_now, refl))
  ]
]

-- A signer that is returned is one of the active mode and never falls back on another: in local mode it signs with the device's key; in extension mode it is the extension's, and if that has no NIP-44, it still signs while both encryption functions throw; in remote mode the session is ready and open and the signer is that session's. In every other case an error is thrown.
get_nostr_signer-IsSignerOf :
    (env : Environment) (w : World) (s : NostrSigner)
    → get_nostr_signer env w ≡ inr s
    → (s.mode ≡ w.identity.mode) × IsSignerOf env w s w.identity.mode
unfolding get_nostr_signer
get_nostr_signer-IsSignerOf env w s h =
    subst (IsGood env w w.identity.mode) h (signer_for-IsGood env w w.identity.mode)
