-- ===== src/Common/Chain/Laws.antt =====
-- What the constructor of `Chain` accepts.
use offchain_service.Base.{
  ℕ, ◌==◌, ◌≡◌, ◌↔◌, inl, inr, true, false, not, Option, none, some, arith, ok, Bool-cases, codes,
}
use offchain_service.Common.Chain.{
  NetworkType, network_id, Environment, is_targetable, is_testnet, new_chain, target, find_network,
  networks,
}

find_network-eq_some :
    (id : ℕ) (n : NetworkType) → find_network id networks ≡ some n → id ≡ network_id n
unfolding network_id
find_network-eq_some id n h = ground arith

find_network-network_id : (n : NetworkType) → find_network (network_id n) networks ≡ some n
unfolding network_id
find_network-network_id n = ground arith

network_id-pos : (n : NetworkType) → (network_id n == 0) ≡ false
unfolding network_id
network_id-pos n = ground arith

target-eq_ok :
    (env : Environment) (o : Option NetworkType) (n : NetworkType)
    → target env o ≡ ok n
    → (o ≡ some n) × (is_targetable env n ≡ true)
target-eq_ok env none n h = cc
target-eq_ok env (some m) n h = ground arith

-- The constructor succeeds exactly for the number of a known network that the environment lets
-- pass, and it gives that network.
pub new_chain-eq_ok :
    (env : Environment) (id : ℕ) (n : NetworkType)
    → (new_chain env id ≡ ok n) ↔ ((id ≡ network_id n) × (is_targetable env n ≡ true))
unfolding new_chain
new_chain-eq_ok env id n = (forward, backward)
  where
    forward : new_chain env id ≡ ok n → (id ≡ network_id n) × (is_targetable env n ≡ true)
    forward h =
        let t : (find_network id networks ≡ some n) × (is_targetable env n ≡ true) =
          elim (Bool-cases (id == 0)) [
            | inl z ↦ ground arith
            | inr nz ↦ target-eq_ok env (find_network id networks) n (ground arith)
          ] in
        (find_network-eq_some id n t.0, t.1)

    backward : (id ≡ network_id n) × (is_targetable env n ≡ true) → new_chain env id ≡ ok n
    backward (e, t) = rw (e, network_id-pos n, find_network-network_id n, t)

-- With debugging off, production targets exactly the networks that `testnets` does not list.
pub is_targetable-production :
    (env : Environment) (n : NetworkType)
    → env.allow_debug_prod ≡ false
    → env.node_env ≡ codes "production"
    → is_targetable env n ≡ not (is_testnet n)
unfolding is_targetable
is_targetable-production env n h p = rw (p, h) (ground arith)
