-- ===== src/Cli/RegenCert/Names.antt =====
-- cmd/ekco/cli/regen-cert.go: which names the new certificate has.
use ekco.Prelude.{
  String, ◌≡◌, refl, ap, inl, inr, Bool, false, not, ◌&&◌, ◌||◌, Option, none, some, List, [], ◌∷◌,
  ◌++◌, arith, ◌==◌, eq_iff, if◌then◌else◌, Bool-cases, Option-cases, any, contains,
}
use ekco.Kube.{Certificate}
use ekco.Cli.RegenCert.{
  nil_ip_text, add_key, AltNames, read_drops, keep_ips, keep_names, add_name, add_names, alt_names,
}

-- Whether a text of a flag is the address `k`, and whether it is the DNS name `k`.
abbrev pub is_ip : (String → Option String) → String → String → Bool
is_ip parse_ip k text = elim (parse_ip text) [ some ip ↦ ip == k | none ↦ false ]

abbrev pub is_name : (String → Option String) → String → String → Bool
is_name parse_ip k text = elim (parse_ip text) [ some ip ↦ false | none ↦ text == k ]

-- Empty texts are not added.
abbrev pub adds_ip : (String → Option String) → String → String → Bool
adds_ip parse_ip k text = not (text == "") && is_ip parse_ip k text

abbrev pub adds_name : (String → Option String) → String → String → Bool
adds_name parse_ip k text = not (text == "") && is_name parse_ip k text

contains-concat :
    (keys : List String) (k j : String) → contains (keys ++ k ∷ []) j ≡ (contains keys j || k == j)
contains-concat [] k j = ground arith
contains-concat (x ∷ keys) k j = ground (arith, contains-concat keys k j)

contains-add_key :
    (keys : List String) (k j : String) → contains (add_key k keys) j ≡ (contains keys j || k == j)
contains-add_key keys k j = elim (Bool-cases (k == j)) [
  | inl same ↦
      let same_text = (eq_iff k j).0 same in
      ground (arith, contains-concat keys k j, eq_iff k j, ap (contains keys) same_text)
  | inr differs ↦ ground (arith, contains-concat keys k j, differs)
]

module _ (parse_ip : String → Option String) (k : String) where
  contains-read_drops :
      (texts : List String)
      → (contains (read_drops parse_ip texts).0 k ≡ any (is_ip parse_ip k) texts)
        × (contains (read_drops parse_ip texts).1 k ≡ any (is_name parse_ip k) texts)
  unfolding read_drops
  contains-read_drops [] = (refl, refl)
  contains-read_drops (text ∷ texts) =
      let (ips, names) = contains-read_drops texts in
      elim (Option-cases (parse_ip text)) [
        | inl no_ip ↦ (
          grind (arith, no_ip, ips),
          grind (arith, no_ip, names, contains-add_key (read_drops parse_ip texts).1 text k),
        )
        | inr (ip, found) ↦ (
          grind (arith, found, ips, contains-add_key (read_drops parse_ip texts).0 ip k),
          grind (arith, found, names),
        )
      ]

  -- An address of the old certificate stays unless it is dropped.
  contains-keep_ips :
      (dropped kept ips : List String)
      → contains (keep_ips dropped kept ips) k
        ≡ (contains kept k || (contains ips k && not (contains dropped k)))
  unfolding keep_ips
  contains-keep_ips dropped kept [] = ground arith
  contains-keep_ips dropped kept (ip ∷ ips) =
      let next = if contains dropped ip then kept else add_key ip kept in
      let rest = contains-keep_ips dropped next ips in
      let added = contains-add_key kept ip k in
      elim (Bool-cases (ip == k)) [
        | inl same ↦
            let same_drop = ap (contains dropped) ((eq_iff ip k).0 same) in
            ground (arith, rest, added, same, same_drop)
        | inr differs ↦ ground (arith, rest, added, differs)
      ]

  contains-keep_names :
      (dropped kept names : List String)
      → contains (keep_names dropped kept names) k
        ≡ (contains kept k || (contains names k && not (k == "") && not (contains dropped k)))
  unfolding keep_names
  contains-keep_names dropped kept [] = ground arith
  contains-keep_names dropped kept (name ∷ names) =
      let next =
        if name == "" then kept else if contains dropped name then kept else add_key name kept in
      let rest = contains-keep_names dropped next names in
      let added = contains-add_key kept name k in
      elim (Bool-cases (name == k)) [
        | inl same ↦
            let same_drop = ap (contains dropped) ((eq_iff name k).0 same) in
            let same_empty = ap (λ s. s == "") ((eq_iff name k).0 same) in
            ground (arith, rest, added, same, same_drop, same_empty)
        | inr differs ↦ ground (arith, rest, added, differs)
      ]

  contains-add_name-ip :
      (text : String) (o : Option String) (kept : AltNames)
      → parse_ip text ≡ o
      → contains (add_name text o kept).0 k ≡ (contains kept.0 k || is_ip parse_ip k text)
  contains-add_name-ip text none (ips, names) parses = grind (arith, parses)
  contains-add_name-ip text (some ip) (ips, names) parses =
      grind (arith, parses, contains-add_key ips ip k)

  contains-add_name-name :
      (text : String) (o : Option String) (kept : AltNames)
      → parse_ip text ≡ o
      → contains kept.1 nil_ip_text ≡ false
      → contains (add_name text o kept).1 k ≡ (contains kept.1 k || is_name parse_ip k text)
  contains-add_name-name text none (ips, names) parses sound =
      grind (arith, parses, sound, contains-add_key names text k)
  contains-add_name-name text (some ip) (ips, names) parses sound = grind (arith, parses)

module _ (parse_ip : String → Option String) where
  next_names : String → AltNames → AltNames
  next_names text kept = if text == "" then kept else add_name text (parse_ip text) kept

  contains-add_names-ip :
      (k : String) (texts : List String) (kept : AltNames)
      → contains (add_names parse_ip kept texts).0 k
        ≡ (contains kept.0 k || any (adds_ip parse_ip k) texts)
  unfolding add_names next_names
  contains-add_names-ip k [] kept = ground arith
  contains-add_names-ip k (text ∷ texts) kept =
      let rest = contains-add_names-ip k texts (next_names text kept) in
      let one = contains-add_name-ip parse_ip k text (parse_ip text) kept refl in
      elim (Bool-cases (text == "")) [
        | inl empty ↦ grind (arith, rest, empty)
        | inr full ↦ grind (arith, rest, one, full)
      ]

  contains-add_names-name :
      (k : String) (texts : List String) (kept : AltNames)
      → contains kept.1 nil_ip_text ≡ false
      → any (adds_name parse_ip nil_ip_text) texts ≡ false
      → contains (add_names parse_ip kept texts).1 k
        ≡ (contains kept.1 k || any (adds_name parse_ip k) texts)
  unfolding add_names next_names
  contains-add_names-name k [] kept sound never = ground arith
  contains-add_names-name k (text ∷ texts) kept sound never =
      let one = contains-add_name-name parse_ip k text (parse_ip text) kept refl sound in
      let nil_one =
        contains-add_name-name parse_ip nil_ip_text text (parse_ip text) kept refl sound in
      let rest = contains-add_names-name k texts (next_names text kept) in
      elim (Bool-cases (text == "")) [
        | inl empty ↦ grind (arith, rest, empty, never)
        | inr full ↦ grind (arith, rest, one, nil_one, full, never)
      ]

module _ (parse_ip : String → Option String) (added dropped : List String)
    (cert : Certificate) where
  -- The addresses and the names that are asked for: those of the old certificate that are not dropped,
  -- and those that are added, also if they are dropped.
  abbrev pub wanted_ip : String → Bool
  wanted_ip k =
      (contains cert.ip_addresses k && not (any (is_ip parse_ip k) dropped))
      || any (adds_ip parse_ip k) added

  abbrev pub wanted_name : String → Bool
  wanted_name k =
      (contains cert.dns_names k && not (k == "") && not (any (is_name parse_ip k) dropped))
      || any (adds_name parse_ip k) added

  pub alt_names-ips :
      (k : String) → contains (alt_names parse_ip added dropped cert).0 k ≡ wanted_ip k
  alt_names-ips k =
      let (drop_ips, drop_names) = read_drops parse_ip dropped in
      let kept = keep_ips drop_ips [] cert.ip_addresses in
      grind (
        arith,
        contains-add_names-ip parse_ip k added (kept, keep_names drop_names [] cert.dns_names),
        contains-keep_ips parse_ip k drop_ips [] cert.ip_addresses,
        contains-read_drops parse_ip k dropped,
      )

  kept_names :
      (k : String)
      → contains (keep_names (read_drops parse_ip dropped).1 [] cert.dns_names) k
        ≡ (contains cert.dns_names k && not (k == "") && not (any (is_name parse_ip k) dropped))
  kept_names k = grind (
    arith,
    contains-keep_names parse_ip k (read_drops parse_ip dropped).1 [] cert.dns_names,
    contains-read_drops parse_ip k dropped,
  )

  pub alt_names-names :
      (k : String)
      → wanted_name nil_ip_text ≡ false
      → contains (alt_names parse_ip added dropped cert).1 k ≡ wanted_name k
  alt_names-names k never =
      let kept : AltNames = (
        keep_ips (read_drops parse_ip dropped).0 [] cert.ip_addresses,
        keep_names (read_drops parse_ip dropped).1 [] cert.dns_names,
      ) in
      grind
        (arith, kept_names nil_ip_text, kept_names k, contains-add_names-name parse_ip k added kept)
