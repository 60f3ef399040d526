-- ===== src/EndpointGroup.antt =====
-- bas/sync_client.hpp: the group of pairs of endpoints. Its mutex may be taken again by its holder, and
-- every method holds it, so a method is one step. An endpoint is a number, and 0 the default one.
pub mod Turns
use baserver.Base.{
  ℕ, zero, suc, ◌+◌, ◌==◌, leb, if◌then◌else◌, List, [], ◌∷◌, ◌++◌, length, Option, none, some,
  get_elem?, Run, ok, fault, out_of_bounds, ◌>>=◌,
}

-- `endpoint_pair_t`: the peer's endpoint and the local one.
abbrev pub EndpointPair : Type 0
EndpointPair = ℕ × ℕ

pub record EndpointGroup : Type 0 where
  pub next_endpoint : ℕ
  pub endpoint_pairs : List EndpointPair

abbrev pub new : EndpointGroup
new = record { next_endpoint = 0; endpoint_pairs = [] }

unfoldable pub set_pair : EndpointPair → EndpointGroup → EndpointGroup
set_pair pair g = record g { endpoint_pairs = g.endpoint_pairs ++ pair ∷ [] }

-- `endpoint_pairs_[next_endpoint_++]`, with the index that the round robin has chosen.
unfoldable pub take_at : ℕ → EndpointGroup → Run (EndpointPair × EndpointGroup)
take_at next g = elim (get_elem? g.endpoint_pairs next) [
  | none ↦ fault out_of_bounds
  | some pair ↦ ok (pair, record g { next_endpoint = next + 1 })
]

-- `get_endpoints()`, by its pairs. A single pair, and the default of an empty group, leave the index.
unfoldable pub choose : List EndpointPair → EndpointGroup → Run (EndpointPair × EndpointGroup)
choose [] g = ok ((0, 0), g)
choose (pair ∷ []) g = ok (pair, g)
choose (pair ∷ other ∷ pairs) g =
    take_at (if leb (length g.endpoint_pairs) g.next_endpoint then 0 else g.next_endpoint) g

unfoldable pub get_endpoints : EndpointGroup → Run (EndpointPair × EndpointGroup)
get_endpoints g = choose g.endpoint_pairs g

-- `get_endpoints(index)`.
unfoldable pub get_endpoints_at : ℕ → EndpointGroup → EndpointPair
get_endpoints_at index g = elim (get_elem? g.endpoint_pairs index) [
  | none ↦ (0, 0)
  | some pair ↦ pair
]

-- Some calls of `get_endpoints()`, one after the other.
unfoldable pub get_many : ℕ → EndpointGroup → Run (List EndpointPair × EndpointGroup)
get_many zero g = ok ([], g)
get_many (suc n) g = do (pair, h) ← get_endpoints g; (pairs, k) ← get_many n h; ok (pair ∷ pairs, k)
