-- ===== src/Adapter/IceCandidate.antt =====
-- The candidates of internal/adapter/icepeer.go, in the format of the FAF client and in that of the ICE
-- library. A `Candidate` is what the methods of an ice.Candidate return; `unmarshal` is ice.UnmarshalCandidate.
use fafsturmudprelay.Prelude.{
  ℕ, ◌+◌, ◌≡◌, ◌≢◌, refl, ◌∙◌, ap, Option, none, some, false, ◌&&◌, [], ◌∷◌, ◌++◌, Bytes, length,
  leb, ◌==◌, map, bytes_beq, if◌then◌else◌,
}
use fafsturmudprelay.Prelude.Int.{ℤ, pos}
use fafsturmudprelay.Prelude.Decimal.{decimal}
use fafsturmudprelay.Adapter.IceSignal.{FafIceCandidate}

pub data CandidateType : Type 0 where
  unspecified host server_reflexive peer_reflexive relay : CandidateType

pub record Candidate : Type 0 where
  pub cand_type : CandidateType
  pub foundation : Bytes
  pub priority : ℕ
  pub address : Bytes
  pub port : ℤ
  pub related : Option (Bytes × ℤ)

abbrev pub host_candidate : Bytes
host_candidate =
    b'H' ∷ b'O' ∷ b'S' ∷ b'T' ∷ b'_' ∷ b'C' ∷ b'A' ∷ b'N' ∷ b'D' ∷ b'I' ∷ b'D' ∷ b'A' ∷ b'T' ∷ b'E'
    ∷ []

abbrev pub server_reflexive_candidate : Bytes
server_reflexive_candidate =
    b'S' ∷ b'E' ∷ b'R' ∷ b'V' ∷ b'E' ∷ b'R' ∷ b'_' ∷ b'R' ∷ b'E' ∷ b'F' ∷ b'L' ∷ b'E' ∷ b'X' ∷ b'I'
    ∷ b'V' ∷ b'E' ∷ b'_' ∷ b'C' ∷ b'A' ∷ b'N' ∷ b'D' ∷ b'I' ∷ b'D' ∷ b'A' ∷ b'T' ∷ b'E' ∷ []

abbrev pub peer_reflexive_candidate : Bytes
peer_reflexive_candidate =
    b'P' ∷ b'E' ∷ b'E' ∷ b'R' ∷ b'_' ∷ b'R' ∷ b'E' ∷ b'F' ∷ b'L' ∷ b'E' ∷ b'X' ∷ b'I' ∷ b'V' ∷ b'E'
    ∷ b'_' ∷ b'C' ∷ b'A' ∷ b'N' ∷ b'D' ∷ b'I' ∷ b'D' ∷ b'A' ∷ b'T' ∷ b'E' ∷ []

abbrev pub relayed_candidate : Bytes
relayed_candidate =
    b'R' ∷ b'E' ∷ b'L' ∷ b'A' ∷ b'Y' ∷ b'E' ∷ b'D' ∷ b'_' ∷ b'C' ∷ b'A' ∷ b'N' ∷ b'D' ∷ b'I' ∷ b'D'
    ∷ b'A' ∷ b'T' ∷ b'E' ∷ []

abbrev pub typ_host : Bytes
typ_host = b'h' ∷ b'o' ∷ b's' ∷ b't' ∷ []

abbrev pub typ_srflx : Bytes
typ_srflx = b's' ∷ b'r' ∷ b'f' ∷ b'l' ∷ b'x' ∷ []

abbrev pub typ_prflx : Bytes
typ_prflx = b'p' ∷ b'r' ∷ b'f' ∷ b'l' ∷ b'x' ∷ []

abbrev pub typ_relay : Bytes
typ_relay = b'r' ∷ b'e' ∷ b'l' ∷ b'a' ∷ b'y' ∷ []

abbrev pub proto_udp : Bytes
proto_udp = b'u' ∷ b'd' ∷ b'p' ∷ []

-- strings.ToLower on ASCII.
abbrev pub to_lower : ℕ → ℕ
to_lower c = if leb b'A' c && leb c b'Z' then c + 32 else c

-- The `type` of the FAF client's format, and that of the library's.
abbrev pub kind_of : CandidateType → Bytes
kind_of unspecified = host_candidate
kind_of host = host_candidate
kind_of server_reflexive = server_reflexive_candidate
kind_of peer_reflexive = peer_reflexive_candidate
kind_of relay = relayed_candidate

unfoldable pub typ_of : Bytes → Option Bytes
typ_of kind =
    if bytes_beq kind host_candidate
    then some typ_host
    else if bytes_beq kind server_reflexive_candidate
    then some typ_srflx
    else if bytes_beq kind peer_reflexive_candidate
    then some typ_prflx
    else if bytes_beq kind relayed_candidate
    then some typ_relay
    else none

abbrev pub spaced : Bytes → Bytes
spaced s = b' ' ∷ s

-- " raddr %s rport %d", if there is a related address.
abbrev pub related_text : Option (Bytes × ℤ) → Bytes
related_text none = []
related_text (some (address, port)) =
    (b' ' ∷ b'r' ∷ b'a' ∷ b'd' ∷ b'd' ∷ b'r' ∷ b' ' ∷ address)
    ++ ((b' ' ∷ b'r' ∷ b'p' ∷ b'o' ∷ b'r' ∷ b't' ∷ b' ' ∷ decimal port))

-- "%s 1 %s %d %s %d typ %s", and the related address.
unfoldable pub candidate_line : Bytes → Bytes → ℕ → Bytes → ℤ → Bytes → Option (Bytes × ℤ) → Bytes
candidate_line foundation protocol priority ip port typ related =
    foundation
    ++ ((b' ' ∷ b'1' ∷ b' ' ∷ protocol)
        ++ (spaced (decimal (pos priority))
            ++ (spaced ip
                ++ (spaced (decimal port)
                    ++ ((b' ' ∷ b't' ∷ b'y' ∷ b'p' ∷ b' ' ∷ typ) ++ related_text related)))))

-- RelAddr and RelPort, if RelAddr is neither nil nor empty.
abbrev pub related_of : Option Bytes → ℤ → Option (Bytes × ℤ)
related_of none port = none
related_of (some address) port = if length address == 0 then none else some (address, port)

abbrev pub rel_addr_of : Option (Bytes × ℤ) → Option Bytes
rel_addr_of none = none
rel_addr_of (some (address, port)) = some address

abbrev pub rel_port_of : Option (Bytes × ℤ) → ℤ
rel_port_of none = pos 0
rel_port_of (some (address, port)) = port

unfoldable pub ice_to_faf_cand : Candidate → ℕ → FafIceCandidate
ice_to_faf_cand c idx = record {
  foundation = c.foundation;
  protocol = proto_udp;
  priority = c.priority;
  ip = c.address;
  port = c.port;
  kind = kind_of c.cand_type;
  generation = pos 0;
  id = decimal (pos idx);
  rel_addr = rel_addr_of c.related;
  rel_port = rel_port_of c.related;
}

module _ (unmarshal : Bytes → Option Candidate) where
  unfoldable pub faf_cand_to_ice : FafIceCandidate → Option Candidate
  unfolding typ_of
  faf_cand_to_ice c = elim (typ_of c.kind) [
    | none ↦ none
    | some typ ↦ unmarshal (
        candidate_line c.foundation (map to_lower c.protocol) c.priority c.ip c.port typ
          (related_of c.rel_addr c.rel_port))
  ]

-- The type in the library's own text of a candidate.
abbrev pub pion_typ : CandidateType → Bytes
pion_typ unspecified = []
pion_typ host = typ_host
pion_typ server_reflexive = typ_srflx
pion_typ peer_reflexive = typ_prflx
pion_typ relay = typ_relay

abbrev pub IsNamed : Option (Bytes × ℤ) → Type 0
IsNamed none = Unit {0}
IsNamed (some (address, port)) = (length address == 0) ≡ false

-- A UDP candidate that the library reads back from its text, with a type and no empty related address.
pub record IsReadBack (unmarshal : Bytes → Option Candidate) (c : Candidate) : Type 0 where
  pub read_back :
      unmarshal (
        candidate_line c.foundation proto_udp c.priority c.address c.port
          (pion_typ c.cand_type)
          c.related)
      ≡ some c
  pub typed : c.cand_type ≢ unspecified
  pub named : IsNamed c.related

typ_of-kind_of : (t : CandidateType) → t ≢ unspecified → typ_of (kind_of t) ≡ some (pion_typ t)
unfolding typ_of
typ_of-kind_of unspecified h = absurd (h refl)
typ_of-kind_of host h = refl
typ_of-kind_of server_reflexive h = refl
typ_of-kind_of peer_reflexive h = refl
typ_of-kind_of relay h = refl

related_kept : (r : Option (Bytes × ℤ)) → IsNamed r → related_of (rel_addr_of r) (rel_port_of r) ≡ r
related_kept none h = refl
related_kept (some (address, port)) h = rw h refl

-- A candidate that is written for the FAF client and read from it again is the same candidate.
pub candidate_survives :
    (unmarshal : Bytes → Option Candidate) (c : Candidate) (idx : ℕ)
    → IsReadBack unmarshal c
    → faf_cand_to_ice unmarshal (ice_to_faf_cand c idx) ≡ some c
unfolding faf_cand_to_ice ice_to_faf_cand
candidate_survives unmarshal c idx ok =
    rw (typ_of-kind_of c.cand_type ok.typed, faf_cand_to_ice)
      (ap
          (λ (r : Option (Bytes × ℤ)). unmarshal (
            candidate_line c.foundation proto_udp c.priority c.address c.port (pion_typ c.cand_type)
              r))
          (related_kept c.related ok.named)
        ∙ ok.read_back)
