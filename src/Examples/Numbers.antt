-- ===== src/Examples/Numbers.antt =====
-- Small whole numbers in place of floats, and a printing of JSON, for the runs.
use amplifier_panel.Base.{
  ℕ, ◌+◌, ◌-◌, ◌*◌, ◌/◌, true, false, String, Option, none, some, ltb, eqb, if◌then◌else◌,
}
use amplifier_panel.Base.Int.{parse_int, pos, negsuc}
use amplifier_panel.Device.{Floats}
use amplifier_panel.Statistics.{Shown}

abbrev number_of_text : String → Option ℕ
number_of_text s = elim (parse_int s) [
  | none ↦ none
  | some (pos n) ↦ some n
  | some (negsuc _) ↦ none
]

abbrev pub numbers : Floats
numbers = record {
  Float = ℕ;
  lt = ltb;
  of_bool = λ b. if b then 1 else 0;
  of_text = number_of_text;
  is_finite = λ n. ltb n 1000;
  show = λ _. "n";
  as_bool = λ n. if eqb n 0 then some false else if eqb n 1 then some true else none;
  zero_float = 0;
  add = ◌+◌;
  mul = ◌*◌;
  sub = ◌-◌;
  div_count = ◌/◌;
  sqrt = λ n. n;
}

abbrev pub shown : Shown ℕ
shown = record { show_index = λ _. "i"; show_json = λ _. "json" }
