-- ===== src/Net.antt =====
-- What src/libp2psocket takes from the library belt.pp: the address of a connection.
-- `ip_address` has the public members `local` and `remote` of type `ip_destination`, which can be
-- empty and can be compared.
use mesh_pp.Prelude.{Bool}

pub record Net : Type 1 where
  pub Destination : Type 0
  pub Address : Type 0
  pub destination_discrete : Discrete Destination
  pub is_empty : Destination → Bool
  pub near : Address → Destination
  pub remote : Address → Destination
