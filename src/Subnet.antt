-- ===== src/Subnet.antt =====
-- The choice of a free subnet (src/healthcheck/discovery.py). Python's ipaddress reads and writes
-- the texts: it is the record `Ip`.
mod Laws
mod Tests
use fptcloud_hc_automation_m.Base.{
  ℕ, zero, suc, ◌+◌, ◌-◌, ◌*◌, ◌^◌, String, Bool, true, false, not, ◌&&◌, ◌||◌, Option, none, some,
  List, [], ◌∷◌, ◌++◌, ◌==◌, if◌then◌else◌, eqb, ltb, leb, mem,
}

-- A network of either version: its first address, and the number of its host bits.
pub record Network : Type 0 where
  pub is_v6 : Bool
  pub address : ℕ
  pub host_bits : ℕ

pub num_addresses : Network → ℕ
num_addresses n = 2 ^ n.host_bits

pub record Ip : Type 0 where
  -- ip_network(text, strict=True); `none` is the ValueError.
  pub ip_network : String → Option Network
  -- int(ip_address(text))
  pub ip_address : String → Option ℕ
  pub network_text : Network → String
  pub address_text : ℕ → String

-- Whether two networks have an address in common; those of two versions have none.
pub overlaps : Network → Network → Bool
unfolding num_addresses
overlaps n m =
    (if n.is_v6 then m.is_v6 else not m.is_v6)
    && ltb n.address (m.address + num_addresses m)
    && ltb m.address (n.address + num_addresses n)

pub data Overlap : Type 0 where
  free : Overlap
  overlapping : String → Overlap
  candidate_invalid : Overlap
  existing_invalid : String → Overlap

module _ (ip : Ip) where
  overlap_with : Network → List String → Overlap
  overlap_with n [] = free
  overlap_with n (raw ∷ rest) =
      let later = overlap_with n rest in
      elim (ip.ip_network raw) [
        | none ↦ existing_invalid raw
        | some m ↦ if overlaps n m then overlapping raw else later
      ]

  pub cidr_overlap : String → List String → Overlap
  unfolding overlap_with
  cidr_overlap candidate existing = elim (ip.ip_network candidate) [
    | none ↦ candidate_invalid
    | some n ↦ overlap_with n existing
  ]

  -- The network of the same size ten networks further on; `none` is a ValueError.
  next_network : Network → Option Network
  unfolding num_addresses
  next_network n =
      let next_address = n.address + num_addresses n * 10 in
      if n.is_v6 || ltb 4294967295 next_address
      then none
      else some (record n { address = next_address })

  next_text : Option Network → Option String
  next_text none = none
  next_text (some n) = some (ip.network_text n)

  pub next_subnet_candidate : String → Option String
  unfolding next_network next_text
  next_subnet_candidate cidr = elim (ip.ip_network cidr) [
    | none ↦ none
    | some n ↦ next_text (next_network n)
  ]

  gateway_in : Network → ℕ → Network → String
  unfolding num_addresses
  gateway_in start gateway selected =
      let offset = gateway - start.address in
      let first_host =
        if leb selected.host_bits 1 then selected.address else selected.address + 1 in
      if leb gateway start.address || leb (num_addresses start - 1) offset
      then ip.address_text first_host
      else ip.address_text (selected.address + offset)

  -- `none` is a ValueError.
  pub gateway_for_candidate : String → String → String → Option String
  unfolding gateway_in
  gateway_for_candidate start_cidr start_gateway selected_cidr = elim (ip.ip_network start_cidr) [
    | none ↦ none
    | some start ↦ elim (ip.ip_network selected_cidr) [
      | none ↦ none
      | some selected ↦ elim (ip.ip_address start_gateway) [
        | none ↦ none
        | some gateway ↦ some (gateway_in start gateway selected)
      ]
    ]
  ]

-- The three lists that are kept side by side.
pub record Rejections : Type 0 where
  pub cidrs : List String
  pub sources : List String
  pub conflicting_subnets : List String

-- The text `overlap_reason` as what it is about.
pub data OverlapReason : Type 0 where
  unset : OverlapReason
  already_rejected : String → String → String → OverlapReason
  overlaps_existing : String → String → OverlapReason

-- SubnetCandidateSelection, its three kinds, and the exception of the gateway's ValueError. Each
-- kind has the number of attempts; `exhausted` says whether it ended by a ValueError.
pub data Selection : Type 0 where
  selected : String → String → ℕ → List String → OverlapReason → Selection
  invalid : Overlap → ℕ → List String → OverlapReason → Selection
  exhausted : Bool → ℕ → List String → OverlapReason → Selection
  raised : Selection

-- The value that stands at the position of `key`, or the default past the end.
value_at : String → String → List String → List String → String
value_at default key [] vs = default
value_at default key (k ∷ ks) [] = default
value_at default key (k ∷ ks) (v ∷ vs) =
    let rest = value_at default key ks vs in if k == key then v else rest

was_rejected : String → Rejections → OverlapReason
unfolding value_at
was_rejected candidate r =
    already_rejected candidate (value_at "runtime_conflict" candidate r.cidrs r.sources)
      (value_at "" candidate r.cidrs r.conflicting_subnets)

rejected_by : String → Rejections → Rejections
rejected_by candidate r = record {
  cidrs = r.cidrs ++ candidate ∷ [];
  sources = r.sources ++ "preflight_inventory" ∷ [];
  conflicting_subnets = r.conflicting_subnets ++ "" ∷ [];
}

module _ (ip : Ip) (start_cidr start_gateway : String) (existing : List String) where
  choose : String → ℕ → Rejections → OverlapReason → Selection
  choose candidate attempt r reason =
      elim (gateway_for_candidate ip start_cidr start_gateway candidate) [
        | none ↦ raised
        | some gateway ↦ selected candidate gateway attempt r.cidrs reason
      ]

  -- The end of a round: `left` more are to come, of which each has the next candidate.
  pub go_on : ℕ → ℕ → String → Rejections → OverlapReason → (String → Selection) → Selection
  go_on zero attempt candidate r reason later = exhausted false attempt r.cidrs reason
  go_on (suc left) attempt candidate r reason later = elim (next_subnet_candidate ip candidate) [
    | none ↦ exhausted true attempt r.cidrs reason
    | some next ↦ later next
  ]

  -- One round, given what `cidr_overlap` says of the candidate.
  judge :
      Overlap
      → ℕ
      → ℕ
      → String
      → Rejections
      → OverlapReason
      → (Rejections → OverlapReason → String → Selection)
      → Selection
  unfolding choose go_on rejected_by
  judge free left attempt candidate r reason later = choose candidate attempt r reason
  judge (overlapping raw) left attempt candidate r reason later =
      go_on left attempt candidate (rejected_by candidate r) (overlaps_existing candidate raw)
        (later (rejected_by candidate r) (overlaps_existing candidate raw))
  judge error left attempt candidate r reason later = invalid error attempt r.cidrs reason

  -- The body of the loop, given whether the candidate was rejected before.
  round :
      Bool
      → ℕ
      → ℕ
      → String
      → Rejections
      → OverlapReason
      → (Rejections → OverlapReason → String → Selection)
      → Selection
  unfolding judge go_on was_rejected
  round true left attempt candidate r reason later =
      go_on left attempt candidate r (was_rejected candidate r) (later r (was_rejected candidate r))
  round false left attempt candidate r reason later =
      judge (cidr_overlap ip candidate existing) left attempt candidate r reason later

  -- `for attempt in range(1, max_attempts + 1)`, with `left` rounds to come.
  pub select_from : ℕ → ℕ → String → Rejections → OverlapReason → Selection
  unfolding round
  select_from zero made candidate r reason = exhausted false made r.cidrs reason
  select_from (suc left) made candidate r reason =
      round (mem candidate r.cidrs) left (made + 1) candidate r reason
        (λ r' reason' next. select_from left (made + 1) next r' reason')

  pub select_additional_subnet_candidate : ℕ → Rejections → Selection
  unfolding select_from
  select_additional_subnet_candidate max_attempts prior =
      select_from max_attempts 0 start_cidr prior unset

pub record CandidateState : Type 0 where
  pub start_cidr : String
  pub start_gateway : String
  pub max_attempts : ℕ
  pub rejections : Rejections

pub append_provider_overlap : CandidateState → String → String → CandidateState
append_provider_overlap s cidr conflicting_subnet =
    if mem cidr s.rejections.cidrs then s else record s {
      rejections = record {
        cidrs = s.rejections.cidrs ++ cidr ∷ [];
        sources = s.rejections.sources ++ "provider_error" ∷ [];
        conflicting_subnets = s.rejections.conflicting_subnets ++ conflicting_subnet ∷ [];
      };
    }
