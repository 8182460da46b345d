-- ===== src/Subnet/Laws.antt =====
-- What is selected is free.
use mathlib.Core.List.{append-nil}
use fptcloud_hc_automation_m.Base.{
  ℕ, zero, suc, ◌+◌, ◌≤◌, ◌<◌, String, Bool, true, false, Option, none, some, List, [], ◌∷◌, ◌++◌,
  ◌≡◌, refl, arith, ◌==◌, if◌then◌else◌, mem, Bool-cases, inl, inr, eq_refl, eq_iff,
}
use fptcloud_hc_automation_m.Subnet.{
  Network, num_addresses, Ip, overlaps, Overlap, free, overlapping, candidate_invalid,
  existing_invalid, overlap_with, cidr_overlap, next_subnet_candidate, gateway_for_candidate,
  Rejections, OverlapReason, Selection, selected, invalid, exhausted, raised, was_rejected,
  rejected_by, overlaps_existing, unset, round, choose, go_on, judge, select_from,
  select_additional_subnet_candidate, CandidateState, append_provider_overlap,
}

-- An address of the network.
pub Inside : ℕ → Network → Type 0
Inside x n = (n.address ≤ x) × (x < n.address + num_addresses n)

pub IsDisjoint : Network → Network → Type 0
IsDisjoint n m = n.is_v6 ≡ m.is_v6 → (x : ℕ) → Inside x n → ¬ Inside x m

disjoint_lem : (n m : Network) → overlaps n m ≡ false → IsDisjoint n m
unfolding overlaps IsDisjoint Inside
disjoint_lem n m h same x i j = ground arith

module _ (ip : Ip) where
  -- Each of the existing subnets is a network that has no address in common with this one.
  pub IsFree : Network → List String → Type 0
  IsFree n [] = Unit
  IsFree n (raw ∷ rest) =
      ((m : Network) × (ip.ip_network raw ≡ some m) × IsDisjoint n m) × IsFree n rest

  free_lem :
      (n : Network) (existing : List String) → overlap_with ip n existing ≡ free → IsFree n existing
  unfolding overlap_with IsFree
  free_lem n [] h = tt
  free_lem n (raw ∷ rest) h = read (ip.ip_network raw) refl h (free_lem n rest)
    where
      read :
          (o : Option Network)
          → ip.ip_network raw ≡ o
          → Path Overlap
              (elim o [
                | none ↦ existing_invalid raw
                | some m ↦ if overlaps n m then overlapping raw else overlap_with ip n rest
              ])
              free
          → (overlap_with ip n rest ≡ free → IsFree n rest)
          → ((m : Network) × (ip.ip_network raw ≡ some m) × IsDisjoint n m) × IsFree n rest
      read none e g rec = cc
      read (some m) e g rec = elim (Bool-cases (overlaps n m)) [
        | inl yes_ ↦ cc (rw yes_ at g)
        | inr no_ ↦ ((m, e, disjoint_lem n m no_), rec (rw no_ at g))
      ]

mem-append : (c : String) (xs ys : List String) → mem c (xs ++ ys) ≡ false → mem c xs ≡ false
unfolding mem
mem-append c [] ys h = refl
mem-append c (x ∷ xs) ys h = ground (arith, mem-append c xs ys)

module _ (ip : Ip) (start_cidr start_gateway : String) (existing : List String) where
  -- What a selection says, given what was rejected before, the rounds made and those allowed. A
  -- selected subnet is a network, free of the existing ones and not rejected before, its gateway
  -- is the one that belongs to it, and it took one of the rounds; no outcome took more rounds.
  pub IsSound : List String → ℕ → ℕ → Selection → Type 0
  IsSound before made most (selected c gateway k rejected reason) =
      ((n : Network) × (ip.ip_network c ≡ some n) × IsFree ip n existing)
      × (mem c before ≡ false)
      × (gateway_for_candidate ip start_cidr start_gateway c ≡ some gateway)
      × (made < k)
      × (k ≤ most)
  IsSound before made most (invalid error k rejected reason) = k ≤ most
  IsSound before made most (exhausted by_error k rejected reason) = k ≤ most
  IsSound before made most raised = Unit

  weaker :
      (before more : List String) (made most : ℕ) (out : Selection)
      → IsSound (before ++ more) (made + 1) most out
      → IsSound before made most out
  unfolding IsSound
  weaker before more made most (selected c g k rejected reason) (n, m, gw, low, high) =
      (n, mem-append c before more m, gw, omega arith, high)
  weaker before more made most (invalid e k rejected reason) h = h
  weaker before more made most (exhausted e k rejected reason) h = h
  weaker before more made most raised h = h

  go_on-IsSound :
      (before : List String) (left made most : ℕ) (candidate : String) (r : Rejections)
      (reason : OverlapReason) (later : String → Selection)
      → made + 1 ≤ most
      → ((next : String) → IsSound before made most (later next))
      → IsSound before made most
          (go_on ip start_cidr start_gateway existing left (made + 1) candidate r reason later)
  unfolding go_on IsSound
  go_on-IsSound before zero made most candidate r reason later fits h = fits
  go_on-IsSound before (suc left) made most candidate r reason later fits h =
      step (next_subnet_candidate ip candidate)
    where
      step :
          (o : Option String)
          → IsSound before made most
              (elim o [ none ↦ exhausted true (made + 1) r.cidrs reason | some next ↦ later next ])
      step none = fits
      step (some next) = h next

  choose-IsSound :
      (n : Network) (candidate : String) (made most : ℕ) (r : Rejections) (reason : OverlapReason)
      → ip.ip_network candidate ≡ some n
      → IsFree ip n existing
      → mem candidate r.cidrs ≡ false
      → made + 1 ≤ most
      → IsSound r.cidrs made most
          (choose ip start_cidr start_gateway existing candidate (made + 1) r reason)
  unfolding choose IsSound
  choose-IsSound n candidate made most r reason e f m fits =
      step (gateway_for_candidate ip start_cidr start_gateway candidate) refl
    where
      step :
          (o : Option String)
          → gateway_for_candidate ip start_cidr start_gateway candidate ≡ o
          → IsSound r.cidrs made most (elim o [
            | none ↦ raised
            | some gateway ↦ selected candidate gateway (made + 1) r.cidrs reason
          ])
      step none g = tt
      step (some gateway) g = ((n, e, f), m, g, omega arith, fits)

  overlap_free :
      (candidate : String)
      → cidr_overlap ip candidate existing ≡ free
      → (n : Network) × (ip.ip_network candidate ≡ some n) × IsFree ip n existing
  unfolding cidr_overlap
  overlap_free candidate h = step (ip.ip_network candidate) refl h
    where
      step :
          (o : Option Network)
          → ip.ip_network candidate ≡ o
          → Path Overlap
              (elim o [ none ↦ candidate_invalid | some n ↦ overlap_with ip n existing ])
              free
          → (n : Network) × (ip.ip_network candidate ≡ some n) × IsFree ip n existing
      step none e g = cc
      step (some n) e g = (n, e, free_lem ip n existing g)

  module _ (left made most : ℕ) (candidate : String) (r : Rejections) (reason : OverlapReason)
      (later : Rejections → OverlapReason → String → Selection) (fits : made + 1 ≤ most)
      (sound : (r' : Rejections) (reason' : OverlapReason) (next : String)
        → IsSound r'.cidrs (made + 1) most (later r' reason' next)) where
    later_here :
        (reason' : OverlapReason) (next : String) → IsSound r.cidrs made most (later r reason' next)
    later_here reason' next =
        weaker r.cidrs [] made most (later r reason' next) (rw append-nil (sound r reason' next))

    judge-IsSound :
        (o : Overlap)
        → cidr_overlap ip candidate existing ≡ o
        → mem candidate r.cidrs ≡ false
        → IsSound r.cidrs made most
            (judge ip start_cidr start_gateway existing o left (made + 1) candidate r reason later)
    unfolding judge rejected_by
    judge-IsSound free e m =
        let (n, f, g) = overlap_free candidate e in
        choose-IsSound n candidate made most r reason f g m fits
    judge-IsSound (overlapping raw) e m =
        go_on-IsSound r.cidrs left made most candidate (rejected_by candidate r)
          (overlaps_existing candidate raw)
          (later (rejected_by candidate r) (overlaps_existing candidate raw)) fits
          (λ next.
            weaker r.cidrs (candidate ∷ []) made most _
              (sound (rejected_by candidate r) (overlaps_existing candidate raw) next))
    judge-IsSound candidate_invalid e m = unfold IsSound in fits
    judge-IsSound (existing_invalid raw) e m = unfold IsSound in fits

    round-IsSound :
        (seen : Bool)
        → mem candidate r.cidrs ≡ seen
        → IsSound r.cidrs made most (
            round ip start_cidr start_gateway existing seen left
              (made + 1)
              candidate
              r
              reason
              later)
    unfolding round
    round-IsSound true e =
        go_on-IsSound r.cidrs left made most candidate r (was_rejected candidate r)
          (later r (was_rejected candidate r)) fits (later_here (was_rejected candidate r))
    round-IsSound false e = judge-IsSound (cidr_overlap ip candidate existing) refl e

  select_from-IsSound :
      (left made most : ℕ) (candidate : String) (r : Rejections) (reason : OverlapReason)
      → made + left ≤ most
      → IsSound r.cidrs made most
          (select_from ip start_cidr start_gateway existing left made candidate r reason)
  unfolding select_from
  select_from-IsSound zero made most candidate r reason fits = unfold IsSound in omega arith
  select_from-IsSound (suc left) made most candidate r reason fits =
      round-IsSound left made most candidate r reason
        (λ r' reason' next.
          select_from ip start_cidr start_gateway existing left (made + 1) next r' reason')
        (omega arith)
        (λ r' reason' next. select_from-IsSound left (made + 1) most next r' reason' (omega arith))
        (mem candidate r.cidrs) refl

  -- A selected subnet is a network that has no address in common with any existing one, was not
  -- rejected before and comes with its gateway; whatever the outcome, no more than the allowed
  -- number of candidates is tried.
  pub select-IsSound :
      (max_attempts : ℕ) (prior : Rejections)
      → IsSound prior.cidrs 0 max_attempts (
          select_additional_subnet_candidate ip start_cidr start_gateway existing max_attempts
            prior)
  unfolding select_additional_subnet_candidate
  select-IsSound max_attempts prior =
      select_from-IsSound max_attempts 0 max_attempts start_cidr prior unset (omega arith)

  mem-snoc : (c : String) (xs : List String) → mem c (xs ++ c ∷ []) ≡ true
  unfolding mem
  mem-snoc c [] = ground (arith, eq_refl c)
  mem-snoc c (x ∷ xs) = ground (arith, mem-snoc c xs)

  -- A subnet that the provider reported as overlapping is rejected from then on.
  noted :
      (s : CandidateState) (c by : String)
      → mem c (append_provider_overlap s c by).rejections.cidrs ≡ true
  unfolding append_provider_overlap
  noted s c by = elim (Bool-cases (mem c s.rejections.cidrs)) [
    | inl yes_ ↦ rw yes_ yes_
    | inr no_ ↦ rw no_ (mem-snoc c s.rejections.cidrs)
  ]

  -- A subnet that the provider reported as overlapping is not selected again.
  pub never_again :
      (s : CandidateState) (c by d gateway : String) (k : ℕ) (rejected : List String)
      (reason : OverlapReason)
      → select_additional_subnet_candidate ip start_cidr start_gateway existing s.max_attempts
          (append_provider_overlap s c by).rejections
        ≡ selected d gateway k rejected reason
      → (d == c) ≡ false
  never_again s c by d gateway k rejected reason h =
      let prior = (append_provider_overlap s c by).rejections in
      let sound : IsSound prior.cidrs 0 s.max_attempts (selected d gateway k rejected reason) =
        rw (← h) (select-IsSound s.max_attempts prior) in
      let fresh : mem d prior.cidrs ≡ false = (unfold IsSound in sound.1) in
      let known = noted s c by in
      elim (Bool-cases (d == c)) [
        | inl same ↦ let e : d ≡ c = (eq_iff d c).0 same in cc (rw e at fresh)
        | inr other ↦ other
      ]
