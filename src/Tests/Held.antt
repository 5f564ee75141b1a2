-- ===== src/Tests/Held.antt =====
-- A libvirt network that holds a host entry for each of two machines or for none, and refuses MODIFY:
-- it behaves as the ledger of addresses assumes.
use Prim.Native.String.{String}
use cluster_api_provider_lib.Shared.{
  ◌⊎◌, inl, inr, subst, ◌≡◌, refl, sym, ap, ◌∙◌, Bool, true, false, ◌&&◌, some, List, [], ◌∷◌,
  arith, str_eq, eq_iff, eq_refl, if◌then◌else◌,
}
use cluster_api_provider_lib.Errors.{Error, message}
use cluster_api_provider_lib.Errors.Exec.{Result, ok, err, ok-injective}
use cluster_api_provider_lib.Network.{NetLib, Network, NetworkDhcpHost}
use cluster_api_provider_lib.Network.Reservation.{
  NetworkOperations, NetworkUpdateCommand, add_last, modify, delete, command_none,
}
use cluster_api_provider_lib.Network.Ledger.{
  entries_of, Inserted, entries, here, there, TextLaws, UpdateLaws,
}
use cluster_api_provider_lib.Tests.Host.{net_lib, letters, subnet_of}

-- The entries that the two machines get.
abbrev pub first_host : NetworkDhcpHost
first_host = record { name = "m1"; mac = "iii"; ip = letters 20 }

abbrev pub second_host : NetworkDhcpHost
second_host = record { name = "m2"; mac = "iiii"; ip = letters 21 }

-- Which of the entries the network holds.
pub record Held : Type 0 where
  pub first : Bool
  pub second : Bool

abbrev pub hosts_held : Bool → Bool → List NetworkDhcpHost
hosts_held true true = first_host ∷ second_host ∷ []
hosts_held true false = first_host ∷ []
hosts_held false true = second_host ∷ []
hosts_held false false = []

abbrev pub network_with : List NetworkDhcpHost → Network
network_with hosts = record { ips = subnet_of (some hosts) ∷ [] }

abbrev pub document_of : Held → Network
document_of s = network_with (hosts_held s.first s.second)

abbrev pub text_of : Bool → Bool → String
text_of true true = "both"
text_of true false = "first"
text_of false true = "second"
text_of false false = "neither"

abbrev pub is_host : NetworkDhcpHost → NetworkDhcpHost → Bool
is_host h k = str_eq h.name k.name && (str_eq h.mac k.mac && str_eq h.ip k.ip)

-- The texts of the two entries and of the four documents.
abbrev pub ledger_lib : NetLib
ledger_lib = record net_lib {
  ipv4_string = λ a. String.◌∷◌ "i" (letters a);
  marshal_host = λ h.
      if is_host h first_host
      then ok "first"
      else if is_host h second_host
      then ok "second"
      else err (message "unknown entry");
  unmarshal_network = λ xml.
      if str_eq xml "both"
      then ok (network_with (hosts_held true true))
      else if str_eq xml "first"
      then ok (network_with (hosts_held true false))
      else if str_eq xml "second"
      then ok (network_with (hosts_held false true))
      else ok (network_with []);
}

abbrev pub toy_update :
    NetworkUpdateCommand → (is_first : Bool) → Bool → Bool → Result (Unit {0}) × Held
toy_update add_last true false b = (ok tt, record { first = true; second = b })
toy_update add_last false a false = (ok tt, record { first = a; second = true })
toy_update delete true true b = (ok tt, record { first = false; second = b })
toy_update delete false a true = (ok tt, record { first = a; second = false })
toy_update modify true true b = (ok tt, record { first = true; second = b })
toy_update modify false a true = (ok tt, record { first = a; second = true })
toy_update _ is_first a b = (err (message "refused"), record { first = a; second = b })

abbrev pub toy_network : NetworkOperations Held
toy_network = record {
  get_xml_desc = λ s. (ok (text_of s.first s.second), s);
  update = λ command section index xml s. toy_update command (str_eq xml "first") s.first s.second;
  get_dhcp_leases = λ s. (ok [], s);
}

pub toy_texts : TextLaws ledger_lib
toy_texts = record {
  fold_refl = eq_refl;
  fold_sym = λ s t e. ground (arith, eq_iff s t, eq_iff t s);
  fold_trans = λ s t u e f. ground (arith, eq_iff s t, eq_iff t u, eq_iff s u);
  fold_dotted = λ s a e. (eq_iff s _).0 e;
  dotted_full = λ a e. cc;
}

abbrev pub text_host : Bool → NetworkDhcpHost
text_host true = first_host
text_host false = second_host

host_of_fields : (h k : NetworkDhcpHost) → is_host h k ≡ true → k ≡ h
host_of_fields h k e = ground (arith, eq_iff h.name k.name, eq_iff h.mac k.mac, eq_iff h.ip k.ip)

-- The two texts, by whether the entry is the first or the second one.
marshal_cases :
    (first second : Bool) (xml : String)
    → (if first then ok "first" else if second then ok "second" else err (message "unknown entry"))
      ≡ ok xml
    → ((first ≡ true) × (str_eq xml "first" ≡ true))
      ⊎ ((second ≡ true) × (str_eq xml "first" ≡ false))
marshal_cases true second xml e = inl (refl, ap (λ t. str_eq t "first") (sym (ok-injective e)))
marshal_cases false true xml e = inr (refl, ap (λ t. str_eq t "first") (sym (ok-injective e)))
marshal_cases false false xml e = absurd (cc (e))

pub marshal_text :
    (h : NetworkDhcpHost) (xml : String)
    → ledger_lib.marshal_host h ≡ ok xml
    → text_host (str_eq xml "first") ≡ h
marshal_text h xml e = elim (marshal_cases (is_host h first_host) (is_host h second_host) xml e) [
  | inl (is_first, text) ↦ ap text_host text ∙ host_of_fields h first_host is_first
  | inr (is_second, text) ↦ ap text_host text ∙ host_of_fields h second_host is_second
]

pub read_text :
    (a b : Bool) → ledger_lib.unmarshal_network (text_of a b) ≡ ok (network_with (hosts_held a b))
read_text true true = refl
read_text true false = refl
read_text false true = refl
read_text false false = refl

abbrev held_after : NetworkUpdateCommand → Bool → Bool → Bool → List NetworkDhcpHost
held_after c is_first a b = let s = (toy_update c is_first a b).1 in hosts_held s.first s.second

pub update_refused :
    (c : NetworkUpdateCommand) (is_first a b : Bool) (e : Error)
    → (toy_update c is_first a b).0 ≡ err e
    → held_after c is_first a b ≡ hosts_held a b
update_refused add_last true true b e failed = refl
update_refused add_last true false b e failed = absurd (cc (failed))
update_refused add_last false a true e failed = refl
update_refused add_last false a false e failed = absurd (cc (failed))
update_refused delete true true b e failed = absurd (cc (failed))
update_refused delete true false b e failed = refl
update_refused delete false a true e failed = absurd (cc (failed))
update_refused delete false a false e failed = refl
update_refused modify true true b e failed = absurd (cc (failed))
update_refused modify true false b e failed = refl
update_refused modify false a true e failed = absurd (cc (failed))
update_refused modify false a false e failed = refl
update_refused command_none is_first a b e failed = refl

pub update_added :
    (is_first a b : Bool)
    → (toy_update add_last is_first a b).0 ≡ ok tt
    → Inserted
        (text_host is_first)
        (entries (network_with (hosts_held a b)))
        (entries (network_with (held_after add_last is_first a b)))
unfolding entries_of
update_added true true b done = absurd (cc (done))
update_added true false true done = here
update_added true false false done = here
update_added false a true done = absurd (cc (done))
update_added false true false done = there here
update_added false false false done = here

pub update_deleted :
    (is_first a b : Bool)
    → (toy_update delete is_first a b).0 ≡ ok tt
    → (old : NetworkDhcpHost) × (str_eq old.mac (text_host is_first).mac ≡ true)
      × Inserted old
          (entries (network_with (held_after delete is_first a b)))
          (entries (network_with (hosts_held a b)))
unfolding entries_of
update_deleted true true true done = (first_host, refl, here)
update_deleted true true false done = (first_host, refl, here)
update_deleted true false b done = absurd (cc (done))
update_deleted false true true done = (second_host, refl, there here)
update_deleted false false true done = (second_host, refl, here)
update_deleted false a false done = absurd (cc (done))

-- An entry that is there is modified to what it is.
pub update_modified :
    (is_first a b : Bool)
    → (toy_update modify is_first a b).0 ≡ ok tt
    → (old : NetworkDhcpHost) × (rest : List NetworkDhcpHost) × (str_eq old.mac
          (text_host is_first).mac
        ≡ true)
      × Inserted old rest (entries (network_with (hosts_held a b)))
      × Inserted (text_host is_first) rest (entries (network_with (held_after modify is_first a b)))
unfolding entries_of
update_modified true true true done = (first_host, second_host ∷ [], refl, here, here)
update_modified true true false done = (first_host, [], refl, here, here)
update_modified true false b done = absurd (cc (done))
update_modified false true true done = (second_host, first_host ∷ [], refl, there here, there here)
update_modified false false true done = (second_host, [], refl, here, here)
update_modified false a false done = absurd (cc (done))

abbrev pub toy_laws : UpdateLaws ledger_lib toy_network
toy_laws = record {
  document = document_of;
  host_of = λ xml. text_host (str_eq xml "first");
  host_of_marshal = marshal_text;
  read = λ s xml given.
      subst (λ t. ledger_lib.unmarshal_network t ≡ ok (document_of s)) (ok-injective given)
        (read_text s.first s.second);
  read_keeps = λ s. refl;
  leases_keep = λ s. refl;
  refused = λ c xml s e failed.
      ap network_with (update_refused c (str_eq xml "first") s.first s.second e failed);
  subnets_kept = λ c xml s. (refl, refl, refl, refl, tt);
  added = λ xml s done. update_added (str_eq xml "first") s.first s.second done;
  modified = λ xml s done. update_modified (str_eq xml "first") s.first s.second done;
  deleted = λ xml s done. update_deleted (str_eq xml "first") s.first s.second done;
}
