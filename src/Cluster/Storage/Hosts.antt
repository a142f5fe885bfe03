-- ===== src/Cluster/Storage/Hosts.antt =====
-- pkg/cluster/rook_ceph.go: `parseCephOSDStatusHosts`, over the character codes of its text. Its
-- pattern is `^\s*\d\s+(?P<host>\S+)`. The carriage return that ends a line is white space to the
-- pattern, so that `ScanLines` drops it makes no difference.
pub mod Parse
use Prim.Native.Char.{code}
use ekco.Prelude.{
  ℕ, String, Bool, true, false, Option, none, some, List, [], ◌∷◌, ◌++◌, ◌||◌, ◌&&◌, eqb, leb, map,
  if◌then◌else◌,
}

abbrev pub codes : String → List ℕ
codes String.[] = []
codes (String.◌∷◌ c s) = code c ∷ codes s

-- `\s`: tab, line feed, form feed, carriage return and blank
abbrev pub is_space : ℕ → Bool
is_space c = eqb c 9 || eqb c 10 || eqb c 12 || eqb c 13 || eqb c 32

-- `\d`
abbrev pub is_digit : ℕ → Bool
is_digit c = leb 48 c && leb c 57

-- `strings.Replace(text, "|", " ", -1)` on one character
abbrev pub blank_bar : ℕ → ℕ
blank_bar c = if eqb c b'|' then 32 else c

unfoldable pub skip_spaces : List ℕ → List ℕ
skip_spaces [] = []
skip_spaces (c ∷ s) = if is_space c then skip_spaces s else c ∷ s

-- `\S+`, greedily; empty where the pattern does not match
unfoldable pub take_word : List ℕ → List ℕ
take_word [] = []
take_word (c ∷ s) = if is_space c then [] else c ∷ take_word s

abbrev non_empty : List ℕ → Option (List ℕ)
non_empty [] = none
non_empty (c ∷ s) = some (c ∷ s)

-- `\s+(\S+)`
abbrev host_after_id : List ℕ → Option (List ℕ)
host_after_id [] = none
host_after_id (c ∷ s) = if is_space c then non_empty (take_word (skip_spaces s)) else none

-- `\d\s+(\S+)`
abbrev id_and_host : List ℕ → Option (List ℕ)
id_and_host [] = none
id_and_host (c ∷ s) = if is_digit c then host_after_id s else none

-- The host that the pattern finds in a line.
unfoldable pub match_host : List ℕ → Option (List ℕ)
unfolding skip_spaces take_word
match_host line = id_and_host (skip_spaces (map blank_bar line))

abbrev pub same_codes : List ℕ → List ℕ → Bool
same_codes [] [] = true
same_codes [] (y ∷ ys) = false
same_codes (x ∷ xs) [] = false
same_codes (x ∷ xs) (y ∷ ys) = eqb x y && same_codes xs ys

abbrev pub has_host : List (List ℕ) → List ℕ → Bool
has_host [] h = false
has_host (g ∷ gs) h = same_codes g h || has_host gs h

-- `hosts[matches[1]] = true`: the keys of the map, without repetition.
abbrev pub add_host : List (List ℕ) → Option (List ℕ) → List (List ℕ)
add_host hosts none = hosts
add_host hosts (some h) = if has_host hosts h then hosts else h ∷ hosts

-- The lines of a text; one more, empty or not, stands after the last line feed.
abbrev pub split_lines : List ℕ → List ℕ → List (List ℕ)
split_lines line [] = line ∷ []
split_lines line (c ∷ s) =
    let rest = split_lines [] s in
    let more = split_lines (line ++ c ∷ []) s in if eqb c 10 then line ∷ rest else more

scan_hosts : List (List ℕ) → List (List ℕ) → List (List ℕ)
scan_hosts hosts [] = hosts
scan_hosts hosts (line ∷ lines) = scan_hosts (add_host hosts (match_host line)) lines

unfoldable pub parse_ceph_osd_status_hosts : String → List (List ℕ)
unfolding scan_hosts match_host
parse_ceph_osd_status_hosts s = scan_hosts [] (split_lines [] (codes s))
