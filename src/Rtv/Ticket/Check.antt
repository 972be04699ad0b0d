-- ===== src/Rtv/Ticket/Check.antt =====
-- src/rtv/ticket.go: what `Verify` accepts, and that it accepts what the signer mints.
use xnc.Prelude.{
  ℕ, ◌+◌, ◌*◌, ◌≤◌, ◌<◌, ◌≡◌, ◌≢◌, ◌⊎◌, refl, ap, ◌∙◌, inl, inr, true, false, Option, none, some,
  List, [], ◌∷◌, ◌++◌, length, drop, All, take-append, ◌==◌, Option-cases, arith,
}
use xnc.Prelude.Map.{get}
use xnc.Rtv.Ticket.{Bytes, Claims, Codec, IsCodec, dot, second, ticket_v1, ticket_leeway, mint}
use xnc.Rtv.Ticket.Verifier.{
  Ticket, Checked, valid, expired, killed, TombKey, TombKey-discrete, Verifier, index_dots,
  signed_by_any, tomb_key, ticket_of, judge, verify_signed, halves, verify,
}

abbrev pub Dotless : Bytes → Type 0
Dotless = All (λ b. b ≢ dot)

index_dots-append :
    (p sig : Bytes) → Dotless p → index_dots (p ++ (dot ∷ dot ∷ sig)) ≡ some (length p)
unfolding index_dots
index_dots-append [] sig h = refl
index_dots-append (b ∷ []) sig h = ground arith
index_dots-append (b ∷ c ∷ bs) sig h = ground (arith, index_dots-append (c ∷ bs) sig h.1)

drop-append_two :
    {A : Type 0} (xs : List A) (a b : A) (ys : List A)
    → drop (length xs + 2) (xs ++ (a ∷ b ∷ ys)) ≡ ys
drop-append_two [] a b ys = refl
drop-append_two (x ∷ xs) a b ys = ground (arith, drop-append_two xs a b ys)

length-nonempty : (p : Bytes) → p ≢ [] → (length p == 0) ≡ false
length-nonempty [] h = absurd (h refl)
length-nonempty (b ∷ bs) h = ground arith

-- The two halves of a token that was put together.
halves-joined :
    (x : Codec) (payload sig : Bytes)
    → IsCodec x
    → payload ≢ []
    → halves x (x.encode payload ++ (dot ∷ dot ∷ x.encode sig)) ≡ some (payload, sig)
unfolding halves
halves-joined x payload sig w some_bytes =
    rw
      (
        halves,
        index_dots-append (x.encode payload) (x.encode sig) (w.encode-dotless payload),
        length-nonempty (x.encode payload) (w.encode-nonempty payload some_bytes),
        take-append (x.encode payload) (dot ∷ dot ∷ x.encode sig),
        drop-append_two (x.encode payload) dot dot (x.encode sig),
        w.decode-encode payload,
        w.decode-encode sig,
      )
      refl

-- The key stands among those of a verifier.
abbrev pub HasKey : Bytes → List Bytes → Type 0
HasKey k [] = ⊥
HasKey k (j ∷ ks) = (k ≡ j) ⊎ HasKey k ks

signed_by_any-HasKey :
    (x : Codec) (priv payload : Bytes) (ks : List Bytes)
    → IsCodec x
    → HasKey (x.public_of priv) ks
    → signed_by_any x ks payload (x.sign priv payload) ≡ true
unfolding signed_by_any
signed_by_any-HasKey x priv payload [] w h = absurd h
signed_by_any-HasKey x priv payload (k ∷ ks) w (inl e) =
    let signed = w.sign-signed_by priv payload in rw (← e, signed) refl
signed_by_any-HasKey x priv payload (k ∷ ks) w (inr h) =
    ground (arith, signed_by_any-HasKey x priv payload ks w h)

verify_signed-mint :
    (x : Codec) (v : Verifier) (c : Claims) (priv payload : Bytes) (now : ℕ)
    → IsCodec x
    → HasKey (x.public_of priv) v.keys
    → c.v ≡ ticket_v1
    → x.marshal c ≡ some payload
    → verify_signed x v payload (x.sign priv payload) now ≡ judge v c now
unfolding verify_signed
verify_signed-mint x v c priv payload now w known version e =
    rw
      (
        verify_signed,
        w.unmarshal-marshal c e,
        version,
        signed_by_any-HasKey x priv payload v.keys w known,
      )
      refl

verify-halves :
    (x : Codec) (v : Verifier) (token payload sig : Bytes) (now : ℕ)
    → halves x token ≡ some (payload, sig)
    → verify x v token now ≡ verify_signed x v payload sig now
unfolding verify
verify-halves x v token payload sig now e = rw (verify, e) refl

-- A tombstone that still stands.
abbrev pub IsBuried : Option ℕ → ℕ → Type 0
IsBuried none now = ⊥
IsBuried (some until) now = now ≤ until

abbrev pub IsDead : Verifier → TombKey → ℕ → Type 0
IsDead v key now = IsBuried (get TombKey-discrete key v.tomb) now

-- The verdict on the claims of a ticket whose signature is accepted.
abbrev pub Verdict : Verifier → Claims → ℕ → Checked → Type 0
Verdict v c now r =
    ((r ≡ expired) × (c.exp * second + ticket_leeway < now))
    ⊎ ((r ≡ killed) × (now ≤ c.exp * second + ticket_leeway) × IsDead v (tomb_key c) now)
    ⊎ ((r ≡ valid (ticket_of c))
        × (now ≤ c.exp * second + ticket_leeway)
        × (IsDead v (tomb_key c) now → ⊥))

judge-Verdict : (v : Verifier) (c : Claims) (now : ℕ) → Verdict v c now (judge v c now).1
unfolding judge
judge-Verdict v c now = ground arith

mint-eq :
    (x : Codec) (c : Claims) (priv token : Bytes)
    → mint x c priv ≡ some token
    → (payload : Bytes) × (x.marshal c ≡ some payload)
      × (x.encode payload ++ (dot ∷ dot ∷ x.encode (x.sign priv payload)) ≡ token)
unfolding mint
mint-eq x c priv token e = elim (Option-cases (x.marshal c)) [
  | inl h ↦ absurd (ground arith)
  | inr (payload, h) ↦ (payload, h, ground arith)
]

-- A ticket of version 1 that a signer minted is read back by every verifier that knows the
-- signer's public key: it is valid, with the contents of the claims, until the leeway after its
-- expiry, but for a standing tombstone of its session or, for a host ticket, of its node.
pub verify-mint :
    (x : Codec) (v : Verifier) (c : Claims) (priv token : Bytes) (now : ℕ)
    → IsCodec x
    → HasKey (x.public_of priv) v.keys
    → c.v ≡ ticket_v1
    → mint x c priv ≡ some token
    → Verdict v c now (verify x v token now).1
verify-mint x v c priv token now w known version e =
    let (payload, me, te) = mint-eq x c priv token e in
    let joined =
      halves-joined x payload (x.sign priv payload) w
        (λ empty. w.marshal-nonempty c (me ∙ ap (λ q. some q) empty)) in
    rw
      (
        ← te,
        verify-halves x v _ payload (x.sign priv payload) now joined,
        verify_signed-mint x v c priv payload now w known version me,
      )
      (judge-Verdict v c now)

-- A token is accepted only if it carries claims of version 1 that one of the verifier's keys
-- signed, that are not past the leeway, and that no tombstone covers; what is returned are those
-- claims.
pub verify-valid :
    (x : Codec) (v : Verifier) (token : Bytes) (now : ℕ) (t : Ticket)
    → (verify x v token now).1 ≡ valid t
    → (c : Claims) × (payload : Bytes) × (sig : Bytes) × (halves x token ≡ some (payload, sig))
      × (x.unmarshal payload ≡ some c)
      × (c.v ≡ ticket_v1)
      × (signed_by_any x v.keys payload sig ≡ true)
      × (now ≤ c.exp * second + ticket_leeway)
      × (IsDead v (tomb_key c) now → ⊥)
      × (t ≡ ticket_of c)
unfolding verify
verify-valid x v token now t e = elim (Option-cases (halves x token)) [
  | inl h ↦ absurd (ground arith)
  | inr ((payload, sig), h) ↦ elim (Option-cases (x.unmarshal payload)) [
    | inl u ↦ absurd (unfold verify_signed in ground arith)
    | inr (c, u) ↦
        let facts : (c.v ≡ ticket_v1)
            × (signed_by_any x v.keys payload sig ≡ true)
            × (now ≤ c.exp * second + ticket_leeway)
            × (IsDead v (tomb_key c) now → ⊥)
            × (t ≡ ticket_of c) =
          unfold verify_signed judge in ground arith in
        (c, payload, sig, h, u, facts.0, facts.1, facts.2, facts.3, facts.4)
  ]
]
