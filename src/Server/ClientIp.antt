-- ===== src/Server/ClientIp.antt =====
-- `App.clientIP` of internal/server/security.go. Addresses and their texts (net/netip, net) are
-- parameters; the trusted proxies are prefixes with their test `contains`.
use mathlib.Core.List.{reverse, reverse-append}
use kasane_mcp.Prelude.{
  ℕ, ◌≡◌, ◌≢◌, refl, ap, Bool, true, false, ◌||◌, not, List, [], ◌∷◌, ◌++◌, Option, none, some, Str,
  ◌==◌, if◌then◌else◌, arith, Bool-cases, Option-cases, inl, inr,
}
use kasane_mcp.GoText.{trim_space}

pub record Net (Addr Prefix : Type 0) : Type 0 where
  pub split_host : Str → Option Str
  pub parse : Str → Option Addr
  pub print : Addr → Str
  pub contains : Prefix → Addr → Bool

first_part : ℕ → List Str → List Str
first_part c [] = (c ∷ []) ∷ []
first_part c (p ∷ ps) = (c ∷ p) ∷ ps

-- strings.Split(s, ",")
unfoldable pub split_comma : Str → List Str
unfolding first_part
split_comma [] = [] ∷ []
split_comma (c ∷ s) = if c == b',' then [] ∷ split_comma s else first_part c (split_comma s)

module _ {Addr Prefix : Type 0} (net : Net Addr Prefix) (proxies : List Prefix) where
  among : List Prefix → Addr → Bool
  among [] ip = false
  among (p ∷ ps) ip = net.contains p ip || among ps ip

  unfoldable pub trusted : Addr → Bool
  unfolding among
  trusted ip = among proxies ip

  -- The loop, on the hops from the last one on.
  unfoldable pub walk : Str → Addr → List Str → Str
  walk host ip [] = net.print ip
  walk host ip (hop ∷ rest) = elim (net.parse (trim_space hop)) [
    | none ↦ host
    | some next ↦ if not (trusted next) then net.print next else walk host next rest
  ]

  behind_proxy : Str → Option Addr → Str → Str
  behind_proxy host none forwarded = host
  behind_proxy host (some ip) forwarded =
      if not (trusted ip) then host else walk host ip (reverse (split_comma forwarded))

  with_host : Str → Option Str → Str → Str
  with_host remote none forwarded = remote
  with_host remote (some host) forwarded = behind_proxy host (net.parse host) forwarded

  -- `remote` is r.RemoteAddr, `forwarded` the header X-Forwarded-For.
  unfoldable pub client_ip : Str → Str → Str
  unfolding with_host behind_proxy
  client_ip remote forwarded = with_host remote (net.split_host remote) forwarded

  -- A hop at which the loop stops.
  abbrev pub stopping : Option Addr → Bool
  stopping none = true
  stopping (some ip) = not (trusted ip)

  abbrev pub stops : List Str → Bool
  stops [] = false
  stops (hop ∷ rest) = stopping (net.parse (trim_space hop)) || stops rest

  walk-append :
      (host : Str) (ip : Addr) (near far : List Str)
      → stops near ≡ true
      → walk host ip (near ++ far) ≡ walk host ip near
  unfolding walk
  walk-append host ip [] far h = cc
  walk-append host ip (hop ∷ near) far h = elim (Option-cases (net.parse (trim_space hop))) [
    | inl none' ↦ rw (walk, none') refl
    | inr (next, found) ↦ elim (Bool-cases (trusted next)) [
      | inr public' ↦ rw (walk, found, public') refl
      | inl proxy ↦ rw (walk, found, proxy) (walk-append host next near far (ground arith))
    ]
  ]

first_part-append :
    (c : ℕ) (ps qs : List Str) → ps ≢ [] → first_part c (ps ++ qs) ≡ first_part c ps ++ qs
unfolding first_part
first_part-append c [] qs h = absurd (h refl)
first_part-append c (p ∷ ps) qs h = refl

first_part-nonempty : (c : ℕ) (ps : List Str) → first_part c ps ≢ []
unfolding first_part
first_part-nonempty c [] h = cc
first_part-nonempty c (p ∷ ps) h = cc

split_comma-nonempty : (s : Str) → split_comma s ≢ []
unfolding split_comma first_part
split_comma-nonempty [] h = cc
split_comma-nonempty (c ∷ s) h = elim (Bool-cases (c == b',')) [
  | inl comma ↦ ground arith
  | inr other ↦ first_part-nonempty c (split_comma s) (ground arith)
]

split_comma-append : (s t : Str) → split_comma (s ++ b',' ∷ t) ≡ split_comma s ++ split_comma t
unfolding split_comma
split_comma-append [] t = refl
split_comma-append (c ∷ s) t = elim (Bool-cases (c == b',')) [
  | inl comma ↦ rw comma (ap (λ x. [] ∷ x) (split_comma-append s t))
  | inr other ↦
      rw (other, split_comma-append s t)
        (first_part-append c (split_comma s) (split_comma t) (split_comma-nonempty s))
]

module _ {Addr Prefix : Type 0} (net : Net Addr Prefix) (proxies : List Prefix) where
  behind_proxy-append :
      (host : Str) (o : Option Addr) (forged real : Str)
      → stops net proxies (reverse (split_comma real)) ≡ true
      → behind_proxy net proxies host o (forged ++ b',' ∷ real)
        ≡ behind_proxy net proxies host o real
  unfolding behind_proxy
  behind_proxy-append host none forged real h = refl
  behind_proxy-append host (some ip) forged real h =
      rw
        (
          split_comma-append forged real,
          reverse-append (split_comma forged) (split_comma real),
          walk-append net proxies host ip (reverse (split_comma real))
              (reverse (split_comma forged)) h,
        )
        refl

  with_host-append :
      (remote : Str) (o : Option Str) (forged real : Str)
      → stops net proxies (reverse (split_comma real)) ≡ true
      → with_host net proxies remote o (forged ++ b',' ∷ real) ≡ with_host net proxies remote o real
  unfolding with_host
  with_host-append remote none forged real h = refl
  with_host-append remote (some host) forged real h =
      behind_proxy-append host (net.parse host) forged real h

  -- What a client writes in front of the hops that the proxies have added to X-Forwarded-For does not
  -- change the address that is taken for it, when one of those hops is not a trusted proxy (or is no
  -- address).
  pub client_ip-append :
      (remote forged real : Str)
      → stops net proxies (reverse (split_comma real)) ≡ true
      → client_ip net proxies remote (forged ++ b',' ∷ real) ≡ client_ip net proxies remote real
  unfolding client_ip
  client_ip-append remote forged real h =
      with_host-append remote (net.split_host remote) forged real h
