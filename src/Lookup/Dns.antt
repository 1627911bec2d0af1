-- ===== src/Lookup/Dns.antt =====
-- PA-Three/PA3/util.c: dnslookup. The debug printing and the freeing of the results are left out.
use csci3757_operating_syste.Base.{ℕ, ◌-◌, List, [], ◌∷◌, Option, none, some, take}

-- A C string, by its characters.
abbrev pub Name : Type 0
Name = List ℕ

pub data Family : Type 0 where
  inet inet6 other_family : Family

pub record Address : Type 0 where
  pub sa_family : Family
  pub sin_addr : ℕ

-- The C library: `none` where getaddrinfo or inet_ntop reports an error.
pub record Net : Type 0 where
  pub getaddrinfo : Name → Option (List Address)
  pub inet_ntop : ℕ → Option Name

-- "UNHANDELED"
abbrev pub unhandled : Name
unhandled = 85 ∷ 78 ∷ 72 ∷ 65 ∷ 78 ∷ 68 ∷ 69 ∷ 76 ∷ 69 ∷ 68 ∷ []

-- The string of one address; `none` is the return of UTIL_FAILURE.
abbrev pub ip_string : Net → Address → Option Name
ip_string net a = elim (a.sa_family) [
  | inet ↦ net.inet_ntop a.sin_addr
  | inet6 ↦ some unhandled
  | other_family ↦ some unhandled
]

-- Every address is converted, also those after the first.
abbrev pub convert_rest : Net → List Address → Option (Unit {0})
convert_rest net [] = some tt
convert_rest net (a ∷ rest) = elim (ip_string net a) [
  | none ↦ none
  | some ip ↦ convert_rest net rest
]

-- The status, where `none` is UTIL_FAILURE, and on success what is put into firstIPstr: nothing if
-- there are no addresses.
unfoldable pub dnslookup : Net → Name → ℕ → Option (Option Name)
dnslookup net hostname max_size = elim (net.getaddrinfo hostname) [
  | none ↦ none
  | some [] ↦ some none
  | some (a ∷ rest) ↦ elim (ip_string net a) [
    | none ↦ none
    | some ip ↦ elim (convert_rest net rest) [
      | none ↦ none
      | some done ↦ some (some (take (max_size - 1) ip))
    ]
  ]
]
