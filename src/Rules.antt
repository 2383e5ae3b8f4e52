-- ===== src/Rules.antt =====
-- client/internal/rules: the rules of a tunnel (types.go) and their manager (manager.go). Time is in
-- nanoseconds and comes as an argument. Domains are lists of bytes, keywords lists of runes. The
-- values of the metadata, which nothing reads, are strings.
pub mod Address
pub mod Text
pub mod Match
pub mod Order
pub mod Manager
pub mod Tests
use gki_pass.Base.{
  Bool, List, Option, String, [], false, if◌then◌else◌, leb, ltb, none, not, some, true, ℕ, ◌%◌,
  ◌&&◌, ◌+◌, ◌^◌,
}
use gki_pass.Base.Maps.{nat_eq, string_eq}
use gki_pass.Base.Int.{int_eq, pos, ℤ}
use gki_pass.Rules.Address.{IpRange}

pub data RuleType : Type 0 where
  tcp : RuleType
  udp : RuleType
  http : RuleType
  https : RuleType
  socks5 : RuleType
  mixed : RuleType

pub data RuleAction : Type 0 where
  allow : RuleAction
  deny : RuleAction
  reject : RuleAction
  relay : RuleAction

pub data RuleStatus : Type 0 where
  pending : RuleStatus
  active : RuleStatus
  inactive : RuleStatus
  deleted : RuleStatus

abbrev pub is_active : RuleStatus → Bool
is_active active = true
is_active _ = false

pub record PortRange : Type 0 where
  pub start : ℕ
  pub end : ℕ

-- `PortRange.Contains`
unfoldable pub port_range_contains : PortRange → ℕ → Bool
port_range_contains range port = leb range.start port && leb port range.end

pub record TrafficLimit : Type 0 where
  pub bytes_per_second : ℤ
  pub connections_limit : ℤ
  pub requests_per_min : ℤ
  pub burst_size : ℤ
  pub enabled : Bool

pub record Rule : Type 0 where
  pub id : String
  pub name : String
  pub description : String
  pub rule_type : RuleType
  pub source_ips : List IpRange
  pub target_ips : List IpRange
  pub source_ports : List PortRange
  pub target_ports : List PortRange
  pub domains : List (List ℕ)
  pub keywords : List (List ℕ)
  pub action : RuleAction
  pub target_addr : String
  pub traffic_limit : TrafficLimit
  pub valid_from : Option ℕ
  pub valid_until : Option ℕ
  pub status : RuleStatus
  pub priority : ℤ
  pub created_at : ℕ
  pub updated_at : ℕ
  pub version : ℕ
  pub hit_count : ℕ
  pub bytes_total : ℕ
  pub last_hit : Option ℕ
  pub metadata : List (String × String)

-- `NewRule`
unfoldable pub new_rule : String → String → RuleType → RuleAction → ℕ → Rule
new_rule id name rule_type action now = record {
  id = id;
  name = name;
  description = "";
  rule_type = rule_type;
  source_ips = [];
  target_ips = [];
  source_ports = [];
  target_ports = [];
  domains = [];
  keywords = [];
  action = action;
  target_addr = "";
  traffic_limit = record {
    bytes_per_second = pos 0;
    connections_limit = pos 0;
    requests_per_min = pos 0;
    burst_size = pos 0;
    enabled = false;
  };
  valid_from = none;
  valid_until = none;
  status = pending;
  priority = pos 0;
  created_at = now;
  updated_at = now;
  version = 1;
  hit_count = 0;
  bytes_total = 0;
  last_hit = none;
  metadata = [];
}

abbrev pub before_start : Option ℕ → ℕ → Bool
before_start none now = false
before_start (some t) now = ltb now t

abbrev pub after_end : Option ℕ → ℕ → Bool
after_end none now = false
after_end (some t) now = ltb t now

-- `Rule.IsValid`
unfoldable pub is_valid : Rule → ℕ → Bool
is_valid rule now =
    if not (is_active rule.status)
    then false
    else if before_start rule.valid_from now
    then false
    else not (after_end rule.valid_until now)

-- `Rule.IsExpired`
unfoldable pub is_expired : Rule → ℕ → Bool
is_expired rule now = after_end rule.valid_until now

-- `Rule.IncrementHit`; the counters are bit patterns of 64 bits.
unfoldable pub increment_hit : Rule → ℕ → ℕ → Rule
increment_hit rule bytes now = record rule {
  hit_count = (rule.hit_count + 1) % 2 ^ 64;
  bytes_total = (rule.bytes_total + bytes) % 2 ^ 64;
  last_hit = some now;
}

-- `Rule.UpdateVersion`
unfoldable pub update_version : Rule → ℕ → Rule
update_version rule now = record rule { version = (rule.version + 1) % 2 ^ 64; updated_at = now }
