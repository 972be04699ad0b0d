-- ===== src/Rtv/Ticket/Tests/SmallCodec.antt =====
-- A codec that satisfies the laws: texts are numbered, a byte of base64 is moved past the dot, and a
-- signature is the key before the text.
use xnc.Prelude.{
  zero, suc, ℕ, ◌+◌, ◌-◌, ◌≡◌, ◌≢◌, refl, ap, ◌⊎◌, inl, inr, String, Bool, true, false, ◌&&◌,
  Option, none, some, List, [], ◌∷◌, ◌++◌, All, ◌==◌, ite, String_discrete, Option-cases, arith,
}
use xnc.Rtv.Ticket.{Bytes, Cap, Claims, Codec, IsCodec, dot}
use xnc.Rtv.Ticket.Verifier.{◌>>=◌}

abbrev texts : List String
texts =
    "" ∷ "host" ∷ "viewer" ∷ "sdata" ∷ "node-1" ∷ "node-2" ∷ "relay-1" ∷ "session-1" ∷ "alice"
    ∷ "agent" ∷ []

unfoldable pub number_of : String → List String → Option ℕ
number_of s [] = none
number_of s (t ∷ ts) = ite (String_discrete t s) (some 0) (do i ← number_of s ts; some (suc i))

unfoldable pub text_at : ℕ → List String → Option String
text_at i [] = none
text_at zero (t ∷ ts) = some t
text_at (suc i) (t ∷ ts) = text_at i ts

text_at-number_of :
    (s : String) (ts : List String) (i : ℕ) → number_of s ts ≡ some i → text_at i ts ≡ some s
unfolding number_of text_at
text_at-number_of s [] i e = ground arith
text_at-number_of s (t ∷ ts) zero e = elim (Option-cases (number_of s ts)) [
  | inl h ↦ ground arith
  | inr (j, h) ↦ ground arith
]
text_at-number_of s (t ∷ ts) (suc i) e = elim (Option-cases (number_of s ts)) [
  | inl h ↦ ground arith
  | inr (j, h) ↦ ground (arith, text_at-number_of s ts i)
]

numbered :
    (s : String)
    → (number_of s texts ≡ none)
      ⊎ ((i : ℕ) × (number_of s texts ≡ some i) × (text_at i texts ≡ some s))
numbered s = elim (Option-cases (number_of s texts)) [
  | inl h ↦ inl h
  | inr (i, h) ↦ inr (i, h, text_at-number_of s texts i h)
]

abbrev bit : Bool → ℕ
bit true = 1
bit false = 0

abbrev cap_bytes : Option Cap → Bytes
cap_bytes none = []
cap_bytes (some k) = bit k.may_control ∷ bit k.may_input ∷ []

abbrev read_cap : Bytes → Option Cap
read_cap (a ∷ b ∷ bs) = some (record { may_control = a == 1; may_input = b == 1 })
read_cap _ = none

unfoldable pub write_claims : Claims → Option Bytes
write_claims c = do
  t ← number_of c.typ texts
  n ← number_of c.nid texts
  s ← number_of c.sid texts
  r ← number_of c.rid texts
  m ← number_of c.nm texts
  some (c.v ∷ t ∷ n ∷ s ∷ r ∷ c.gen ∷ m ∷ c.iat ∷ c.exp ∷ cap_bytes c.cap)

unfoldable pub read_claims : Bytes → Option Claims
read_claims (v ∷ t ∷ n ∷ s ∷ r ∷ g ∷ m ∷ i ∷ e ∷ rest) = do
  typ ← text_at t texts
  nid ← text_at n texts
  sid ← text_at s texts
  rid ← text_at r texts
  nm ← text_at m texts
  some (record {
    v = v;
    typ = typ;
    nid = nid;
    sid = sid;
    rid = rid;
    gen = g;
    cap = read_cap rest;
    nm = nm;
    iat = i;
    exp = e;
  })
read_claims _ = none

cap-bytes : (k : Option Cap) → read_cap (cap_bytes k) ≡ k
cap-bytes none = refl
cap-bytes (some k) = ground arith

read_claims-write_claims :
    (c : Claims) {p : Bytes} → write_claims c ≡ some p → read_claims p ≡ some c
unfolding write_claims read_claims
read_claims-write_claims c e = elim (numbered c.typ) [
  | inl h ↦ absurd (ground arith)
  | inr (t, ht, at_t) ↦ elim (numbered c.nid) [
    | inl h ↦ absurd (ground arith)
    | inr (n, hn, at_n) ↦ elim (numbered c.sid) [
      | inl h ↦ absurd (ground arith)
      | inr (s, hs, at_s) ↦ elim (numbered c.rid) [
        | inl h ↦ absurd (ground arith)
        | inr (r, hr, at_r) ↦ elim (numbered c.nm) [
          | inl h ↦ absurd (ground arith)
          | inr (m, hm, at_m) ↦ ground (arith, cap-bytes c.cap)
        ]
      ]
    ]
  ]
]

abbrev lift : Bytes → Bytes
lift [] = []
lift (b ∷ bs) = (b + 47) ∷ lift bs

abbrev lower : Bytes → Bytes
lower [] = []
lower (b ∷ bs) = (b - 47) ∷ lower bs

lower-lift : (p : Bytes) → lower (lift p) ≡ p
lower-lift [] = refl
lower-lift (b ∷ bs) = ground (arith, lower-lift bs)

lift-dotless : (p : Bytes) → All (λ b. b ≢ dot) (lift p)
lift-dotless [] = tt
lift-dotless (b ∷ bs) = (ground arith, lift-dotless bs)

abbrev same_bytes : Bytes → Bytes → Bool
same_bytes [] [] = true
same_bytes (a ∷ p) (b ∷ q) = a == b && same_bytes p q
same_bytes _ _ = false

same_bytes_self : (p : Bytes) → same_bytes p p ≡ true
same_bytes_self [] = refl
same_bytes_self (b ∷ bs) = ground (arith, same_bytes_self bs)

abbrev pub codec : Codec
codec = record {
  marshal = write_claims;
  unmarshal = read_claims;
  encode = lift;
  decode = λ p. some (lower p);
  sign = λ priv p. priv ++ p;
  signed_by = λ key p sig. same_bytes sig (key ++ p);
  public_of = λ priv. priv;
  private_key_of = λ s. some (7 ∷ []);
  public_key_of = λ s. some (7 ∷ []);
}

write_claims-nonempty : (c : Claims) → write_claims c ≢ some []
unfolding write_claims
write_claims-nonempty c e = ground arith

lift-nonempty : (p : Bytes) → p ≢ [] → lift p ≢ []
lift-nonempty [] h = absurd (h refl)
lift-nonempty (b ∷ bs) h = λ e. ground arith

pub codec-IsCodec : IsCodec codec
codec-IsCodec = record {
  unmarshal-marshal = λ c {p} e. read_claims-write_claims c e;
  marshal-nonempty = write_claims-nonempty;
  decode-encode = λ p. ap some (lower-lift p);
  encode-dotless = lift-dotless;
  encode-nonempty = lift-nonempty;
  sign-signed_by = λ priv p. same_bytes_self (priv ++ p);
}
