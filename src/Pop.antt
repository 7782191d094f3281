-- ===== src/Pop.antt =====
-- The TCP echo receiver that also pings the access point,
-- bin/app_layer_rtt/tcp_ping_receiver_pop.c: `trim_whitespace` and `get_pop_ip_from_script` here;
-- the socket loops in `Pop.Loop`, the life of the process in `Pop.Life`.
pub mod Trim
pub mod Loop
pub mod Life
use starlink_tcp.Common.{
  ℕ, zero, suc, Bool, true, false, ◌||◌, ◌&&◌, List, [], ◌∷◌, Option, none, some, ◌==◌, leb,
  if◌then◌else◌, length, take,
}

-- `isspace` in the C locale.
abbrev pub is_space : ℕ → Bool
is_space c = leb 9 c && leb c 13 || c == 32

-- `while (*start && isspace(*start)) start++`
pub skip_space : List ℕ → List ℕ
skip_space [] = []
skip_space (c ∷ cs) = if is_space c then skip_space cs else c ∷ cs

-- `isspace(s[i])`; an index out of range is not used.
pub space_at : List ℕ → ℕ → Bool
space_at [] i = false
space_at (c ∷ cs) zero = is_space c
space_at (c ∷ cs) (suc i) = space_at cs i

-- `while (len > 0 && isspace(s[len - 1])) { s[len - 1] = '\0'; len--; }`
pub cut : List ℕ → ℕ → List ℕ
unfolding space_at
cut s zero = []
cut s (suc len) = if space_at s len then cut s len else take (suc len) s

-- The characters of the string before its `\0`.
pub trim_whitespace : List ℕ → List ℕ
unfolding skip_space cut
trim_whitespace s = cut (skip_space s) (length (skip_space s))

-- `fgets` into a buffer of `suc n` characters.
pub fgets : ℕ → List ℕ → List ℕ
fgets zero output = []
fgets (suc n) [] = []
fgets (suc n) (c ∷ cs) = if c == 10 then c ∷ [] else c ∷ fgets n cs

-- The string in a buffer.
pub c_string : List ℕ → List ℕ
c_string [] = []
c_string (c ∷ cs) = if c == 0 then [] else c ∷ c_string cs

-- What running the script gives: no pipe, or its output and the status of `pclose`.
pub data Script : Type 0 where
  no_pipe : Script
  ran : List ℕ → ℕ → Script

-- `inet_pton(AF_INET, …) == 1`
pub get_pop_ip_from_script : (List ℕ → Bool) → Script → Option (List ℕ)
unfolding fgets c_string
get_pop_ip_from_script inet_pton no_pipe = none
get_pop_ip_from_script inet_pton (ran [] status) = none
get_pop_ip_from_script inet_pton (ran (c ∷ cs) status) =
    let ip = trim_whitespace (c_string (fgets 127 (c ∷ cs))) in
    if status == 0 then if inet_pton ip then some ip else none else none
