-- ===== src/Subnet/Tests.antt =====
-- Two networks of 256 addresses, of which the first is taken.
use fptcloud_hc_automation_m.Base.{
  false, none, some, [], ◌∷◌, ◌≡◌, refl, ◌==◌, if◌then◌else◌, eqb, mem,
}
use fptcloud_hc_automation_m.Subnet.{
  Network, Ip, Rejections, selected, select_additional_subnet_candidate, CandidateState,
  append_provider_overlap, already_rejected, cidr_overlap, next_subnet_candidate,
  gateway_for_candidate,
}
use fptcloud_hc_automation_m.Subnet.Laws.{IsSound, select-IsSound}

abbrev taken : Network
taken = record { is_v6 = false; address = 167772160; host_bits = 8 }

abbrev tenth : Network
tenth = record { is_v6 = false; address = 167774720; host_bits = 8 }

-- Texts of the two networks and of one gateway.
abbrev ip : Ip
ip = record {
  ip_network = λ s.
      if s == "10.0.0.0/24" then some taken else if s == "10.0.10.0/24" then some tenth else none;
  ip_address = λ s. if s == "10.0.0.1" then some 167772161 else none;
  network_text = λ n. if eqb n.address 167774720 then "10.0.10.0/24" else "?";
  address_text = λ a. if eqb a 167774721 then "10.0.10.1" else "?";
}

abbrev nothing : Rejections
nothing = record { cidrs = []; sources = []; conflicting_subnets = [] }

select-IsSound_example :
    IsSound ip "10.0.0.0/24" "10.0.0.1" ("10.0.0.0/24" ∷ []) [] 0 5 (
      select_additional_subnet_candidate ip "10.0.0.0/24" "10.0.0.1" ("10.0.0.0/24" ∷ []) 5 nothing)
select-IsSound_example = select-IsSound ip "10.0.0.0/24" "10.0.0.1" ("10.0.0.0/24" ∷ []) 5 nothing

abbrev before : CandidateState
before = record {
  start_cidr = "10.0.0.0/24";
  start_gateway = "10.0.0.1";
  max_attempts = 5;
  rejections = nothing;
}

-- The provider knows of a subnet that the inventory does not.
second_selected :
    select_additional_subnet_candidate ip "10.0.0.0/24" "10.0.0.1" [] 5
      (append_provider_overlap before "10.0.0.0/24" "net-1").rejections
    ≡ selected "10.0.10.0/24" "10.0.10.1" 2
        ("10.0.0.0/24" ∷ [])
        (already_rejected "10.0.0.0/24" "provider_error" "net-1")
unfolding select_additional_subnet_candidate append_provider_overlap mem next_subnet_candidate
    cidr_overlap gateway_for_candidate
second_selected = refl
