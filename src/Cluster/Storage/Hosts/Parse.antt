-- ===== src/Cluster/Storage/Hosts/Parse.antt =====
-- Which hosts the pattern finds, and the hosts of a whole status text.
use ekco.Prelude.{ℕ, ◌≡◌, true, false, none, some, List, [], ◌∷◌, ◌++◌, map, arith, eqb, All}
use ekco.Cluster.Storage.Hosts.{is_space, is_digit, blank_bar, take_word, skip_spaces, match_host}

-- Characters of a host name: neither white space nor a bar.
abbrev pub Plain : ℕ → Type 0
Plain c = (is_space c ≡ false) × (eqb c b'|' ≡ false)

take_word-append :
    (host rest : List ℕ) (sep : ℕ)
    → All Plain host
    → is_space (blank_bar sep) ≡ true
    → take_word (map blank_bar (host ++ sep ∷ rest)) ≡ host
unfolding take_word
take_word-append [] rest sep h space = rw space
take_word-append (c ∷ host) rest sep h space =
    ground (arith, h.0, take_word-append host rest sep h.1 space)

-- A line with a one-digit OSD id and a host name between blanks or bars yields that host.
pub match_host-host :
    (c id gap sep : ℕ) (host rest : List ℕ)
    → is_digit id ≡ true
    → is_space (blank_bar gap) ≡ true
    → is_space (blank_bar sep) ≡ true
    → All Plain (c ∷ host)
    → match_host (id ∷ gap ∷ (c ∷ host) ++ sep ∷ rest) ≡ some (c ∷ host)
unfolding match_host
match_host-host c id gap sep host rest digit g s h =
    ground (arith, take_word-append (c ∷ host) rest sep h s, take_word-append host rest sep h.1 s)

-- A line whose OSD id has two digits or more yields no host, whatever blanks and bars stand before the id
-- and whatever follows its second digit.
pub match_host-two_digits :
    (lead : List ℕ) (c d : ℕ) (rest : List ℕ)
    → All (λ b. is_space (blank_bar b) ≡ true) lead
    → is_digit c ≡ true
    → is_digit d ≡ true
    → match_host (lead ++ c ∷ d ∷ rest) ≡ none
unfolding match_host skip_spaces
match_host-two_digits [] c d rest blank hc hd = ground arith
match_host-two_digits (b ∷ lead) c d rest (first, blank) hc hd =
    grind (arith, first, match_host-two_digits lead c d rest blank hc hd)
