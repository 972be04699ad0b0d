-- ===== src/Rtv/Ticket/Issue.antt =====
-- src/rtv/ticket.go: the host tickets that the signer hands out and keeps.
use xnc.Prelude.{
  ℕ, ◌+◌, ◌<◌, ◌≡◌, refl, sym, ap, ◌∙◌, inl, inr, String, Option, none, some, List, [], ◌∷◌, ltb,
  ite, Option-cases, Bool-cases, arith,
}
use mathlib.Core.Path.{subst}
use xnc.Prelude.Map.{put, get-put}
use xnc.Rtv.Ticket.{
  Bytes, Codec, Signer, HostTicket, HostKey, HostKey-discrete, unix, leeway_seconds,
  host_ticket_life, mint, host_claims, cached, renew, host_ticket_for,
}

-- What a cached ticket of a node and a relay is: minted at some time, with that time's expiry.
abbrev pub IsCachedFor : Codec → Bytes → (node relay : String) → Option HostTicket → Type 0
IsCachedFor x priv node relay none = Unit
IsCachedFor x priv node relay (some t) =
    (then_ : ℕ) × (mint x (host_claims node relay then_) priv ≡ some t.tok)
    × (t.exp_unix ≡ unix (then_ + host_ticket_life))

-- Every entry of the cache is a host ticket of its key.
abbrev pub IsCache : Codec → Signer → Type 0
IsCache x s = (node relay : String) → IsCachedFor x s.priv node relay (cached s node relay)

-- A host ticket with at least the leeway left before its expiry.
abbrev pub IsFresh : Codec → Bytes → (node relay : String) → ℕ → Bytes → Type 0
IsFresh x priv node relay now tok =
    (then_ : ℕ) × (mint x (host_claims node relay then_) priv ≡ some tok)
    × (unix now + leeway_seconds < unix (then_ + host_ticket_life))

put-IsCachedFor :
    (x : Codec) (s : Signer) (node relay n r : String) (now : ℕ) (tok : Bytes)
    (d : Dec (Path HostKey (node, relay) (n, r)))
    → mint x (host_claims node relay now) s.priv ≡ some tok
    → IsCachedFor x s.priv n r (cached s n r)
    → IsCachedFor x s.priv n r (
        ite d
          (some (record { tok = tok; exp_unix = unix (now + host_ticket_life) }))
          (cached s n r))
put-IsCachedFor x s node relay n r now tok (yes same) e old =
    (now, ap (λ (k : HostKey). mint x (host_claims k.0 k.1 now) s.priv) (sym same) ∙ e, refl)
put-IsCachedFor x s node relay n r now tok (no apart) e old = old

unix-life : (now : ℕ) → unix now + 86400 ≡ unix (now + host_ticket_life)
unix-life now = omega arith

renew-IsCache :
    (x : Codec) (s s' : Signer) (node relay : String) (now : ℕ) (tok : Bytes)
    → IsCache x s
    → renew x s node relay now ≡ some (s', tok)
    → IsCache x s' × IsFresh x s'.priv node relay now tok
unfolding renew
renew-IsCache x s s' node relay now tok w e =
    elim (Option-cases (mint x (host_claims node relay now) s.priv)) [
      | inl h ↦ absurd (ground arith)
      | inr (t, h) ↦
          let entry : HostTicket = record { tok = t; exp_unix = unix (now + host_ticket_life) } in
          let s1 : Signer = record s {
            host_cache = put HostKey-discrete (node, relay) entry s.host_cache;
          } in
          let found : s1 ≡ s' = ground arith in
          let same : t ≡ tok = ground arith in
          (
            λ n r.
                rw (← found, get-put HostKey-discrete (node, relay) (n, r) entry s.host_cache)
                  (put-IsCachedFor x s node relay n r now t (HostKey-discrete (node, relay) (n, r))
                    h (w n r)),
            (now, rw (← found, ← same) h, omega (arith, unix-life now)),
          )
    ]

-- The signer never hands out a host ticket that is near its expiry: from a cache of its own
-- tickets, one that it hands out has more than the leeway left, and its cache is kept so.
pub host_ticket_for-IsFresh :
    (x : Codec) (s s' : Signer) (node relay : String) (now : ℕ) (tok : Bytes)
    → IsCache x s
    → host_ticket_for x s node relay now ≡ some (s', tok)
    → IsCache x s' × IsFresh x s'.priv node relay now tok
unfolding host_ticket_for
host_ticket_for-IsFresh x s s' node relay now tok w e = elim (Option-cases (cached s node relay)) [
  | inl h ↦ renew-IsCache x s s' node relay now tok w (ground arith)
  | inr (t, h) ↦
      let entry : IsCachedFor x s.priv node relay (some t) =
        subst (IsCachedFor x s.priv node relay) h (w node relay) in
      elim (Bool-cases (ltb (unix now + leeway_seconds) t.exp_unix)) [
        | inl good ↦
            let kept : s ≡ s' = ground arith in
            let same : t.tok ≡ tok = ground arith in
            (rw (← kept) w, (entry.0, rw (← kept, ← same) entry.1, ground arith))
        | inr stale ↦ renew-IsCache x s s' node relay now tok w (ground arith)
      ]
]

-- The requests for host tickets of one run of the server.
pub record Request : Type 0 where
  pub node : String
  pub relay : String
  pub at : ℕ

unfoldable pub requests : Codec → Signer → List Request → Signer
requests x s [] = s
requests x s (r ∷ rs) = elim (host_ticket_for x s r.node r.relay r.at) [
  | none ↦ s
  | some (s', tok) ↦ requests x s' rs
]

pub host_ticket_for-priv :
    (x : Codec) (s s' : Signer) (node relay : String) (now : ℕ) (tok : Bytes)
    → host_ticket_for x s node relay now ≡ some (s', tok)
    → s'.priv ≡ s.priv
unfolding host_ticket_for renew
host_ticket_for-priv x s s' node relay now tok e = ground arith

pub requests-IsCache :
    (x : Codec) (s : Signer) (rs : List Request) → IsCache x s → IsCache x (requests x s rs)
unfolding requests
requests-IsCache x s [] w = w
requests-IsCache x s (r ∷ rs) w = elim (Option-cases (host_ticket_for x s r.node r.relay r.at)) [
  | inl h ↦ rw (requests, h) w
  | inr ((s', tok), h) ↦
      rw (requests, h)
        (requests-IsCache x s' rs (host_ticket_for-IsFresh x s s' r.node r.relay r.at tok w h).0)
]

pub requests-priv : (x : Codec) (s : Signer) (rs : List Request) → (requests x s rs).priv ≡ s.priv
unfolding requests
requests-priv x s [] = refl
requests-priv x s (r ∷ rs) = elim (Option-cases (host_ticket_for x s r.node r.relay r.at)) [
  | inl h ↦ rw (requests, h) refl
  | inr ((s', tok), h) ↦
      rw (requests, h)
        (requests-priv x s' rs ∙ host_ticket_for-priv x s s' r.node r.relay r.at tok h)
]

-- What a request leaves in the cache for its node and relay.
same_key :
    (k : HostKey) (d : Dec (Path HostKey k k)) (t : HostTicket) (o : Option HostTicket)
    → ite d (some t) o ≡ some t
same_key k (yes e) t o = refl
same_key k (no n) t o = absurd (n refl)

cached-renew :
    (x : Codec) (s s' : Signer) (node relay : String) (now : ℕ) (tok : Bytes)
    → renew x s node relay now ≡ some (s', tok)
    → (t : HostTicket) × (cached s' node relay ≡ some t) × (t.tok ≡ tok)
unfolding renew
cached-renew x s s' node relay now tok e =
    elim (Option-cases (mint x (host_claims node relay now) s.priv)) [
      | inl h ↦ absurd (ground arith)
      | inr (t, h) ↦
          let entry : HostTicket = record { tok = t; exp_unix = unix (now + host_ticket_life) } in
          let s1 : Signer = record s {
            host_cache = put HostKey-discrete (node, relay) entry s.host_cache;
          } in
          let found : s1 ≡ s' = ground arith in
          (
            entry,
            rw (← found, get-put HostKey-discrete (node, relay) (node, relay) entry s.host_cache)
                (same_key (node, relay) (HostKey-discrete (node, relay) (node, relay)) entry
                  (cached s node relay)),
            ground arith,
          )
    ]

cached-host_ticket_for :
    (x : Codec) (s s' : Signer) (node relay : String) (now : ℕ) (tok : Bytes)
    → host_ticket_for x s node relay now ≡ some (s', tok)
    → (t : HostTicket) × (cached s' node relay ≡ some t) × (t.tok ≡ tok)
unfolding host_ticket_for
cached-host_ticket_for x s s' node relay now tok e = elim (Option-cases (cached s node relay)) [
  | inl h ↦ cached-renew x s s' node relay now tok (ground arith)
  | inr (t, h) ↦ elim (Bool-cases (ltb (unix now + leeway_seconds) t.exp_unix)) [
    | inl good ↦
        let kept : s ≡ s' = ground arith in
        (t, ap (λ z. cached z node relay) (sym kept) ∙ h, ground arith)
    | inr stale ↦ cached-renew x s s' node relay now tok (ground arith)
  ]
]

-- A further request for the same node and relay gets the same bytes, and leaves the signer as it
-- is, as long as the ticket that is handed out has more than the leeway left.
pub host_ticket_for-again :
    (x : Codec) (s s' : Signer) (node relay : String) (now later : ℕ) (tok : Bytes)
    → host_ticket_for x s node relay now ≡ some (s', tok)
    → (t : HostTicket) × (cached s' node relay ≡ some t)
      × (t.tok ≡ tok)
      × (unix later + leeway_seconds < t.exp_unix
          → host_ticket_for x s' node relay later ≡ some (s', tok))
host_ticket_for-again x s s' node relay now later tok e =
    let (t, h, same) = cached-host_ticket_for x s s' node relay now tok e in
    (t, h, same, λ early. unfold host_ticket_for in ground arith)
