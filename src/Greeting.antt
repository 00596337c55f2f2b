-- ===== src/Greeting.antt =====
-- src/greeting.cpp: the greeting of the template that the monolith started from.
use otus_highload_architect.Prelude.{◌∷◌, ◌≡◌, refl, [], ◌++◌, if◌then◌else◌, is_empty, Text, codes}

pub data UserType : Type 0 where
  first_time known : UserType

-- `SayHelloTo`; 10 is the line break.
unfoldable pub say_hello_to : Text → UserType → Text
say_hello_to name type =
    let greeted = if is_empty name then codes "unknown user" else name in
    elim type [
      | first_time ↦ codes "Hello, " ++ greeted ++ codes "!" ++ 10 ∷ []
      | known ↦ codes "Hi again, " ++ greeted ++ codes "!" ++ 10 ∷ []
    ]

-- Whoever gives no name is greeted as one who is called `unknown user`.
pub say_hello_to-nameless :
    (type : UserType) → say_hello_to [] type ≡ say_hello_to (codes "unknown user") type
unfolding say_hello_to
say_hello_to-nameless first_time = refl
say_hello_to-nameless known = refl
