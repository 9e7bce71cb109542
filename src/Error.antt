-- ===== src/Error.antt =====
-- The error types of src/error.rs, in a build without the `hfs` feature.

pub data PatternProblem : Type 0 where
  too_few_parameters unsupported_handshake_type unsupported_base_type : PatternProblem
  unsupported_hash_type unsupported_dh_type unsupported_cipher_type : PatternProblem
  invalid_psk unsupported_modifier : PatternProblem

pub data InitStage : Type 0 where
  validate_key_lengths validate_psk_lengths validate_cipher_types : InitStage
  get_rng_impl get_dh_impl get_cipher_impl get_hash_impl validate_psk_position : InitStage

pub data Prerequisite : Type 0 where
  local_private_key remote_public_key : Prerequisite

pub data StateProblem : Type 0 where
  missing_key_material missing_psk not_turn_to_write not_turn_to_read : StateProblem
  handshake_not_finished handshake_already_finished one_way stateless_transport_mode : StateProblem

pub data Error : Type 0 where
  pattern_error : PatternProblem → Error
  init : InitStage → Error
  prereq : Prerequisite → Error
  state : StateProblem → Error
  input dh decrypt : Error
