-- ===== src/Platform/Uuids.antt =====
-- Boost.Uuid: `boost::uuids::to_string` and `boost::uuids::string_generator`, which throws
-- `std::runtime_error` on a text that is no identifier (`none` here).
use otus_highload_architect.Prelude.{Text, Uuid, Option, some, ◌≡◌, refl}

pub record UuidText : Type 0 where
  pub to_string : Uuid → Text
  pub generator : Text → Option Uuid
  pub generator-to_string : (u : Uuid) → generator (to_string u) ≡ some u

-- A rendering for tests: the bytes themselves.
abbrev pub plain_uuids : UuidText
plain_uuids = record {
  to_string = λ u. u;
  generator = λ t. some t;
  generator-to_string = λ u. refl;
}
