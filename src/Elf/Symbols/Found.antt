-- ===== src/Elf/Symbols/Found.antt =====
-- When `find_symbol` finds a symbol.
use text.Mathlib.Text.{◌==◌ as str_eq}
use Prim.Native.String.{String}
use sel4cp.Prelude.{
  ℕ, ◌≡◌, refl, Option, none, some, List, [], ◌∷◌, Result, ok, err, exception, key_error, ◌>>=◌,
  if◌then◌else◌, Bool-cases, inl, inr,
}
use sel4cp.Elf.Types.{ElfSymbol, ElfFile}
use sel4cp.Elf.Symbols.{find_from, find_symbol}

-- The symbols of a name, in order.
abbrev pub named : String → List (String × ElfSymbol) → List ElfSymbol
named nm [] = []
named nm ((k, sym) ∷ syms) = if str_eq k nm then sym ∷ named nm syms else named nm syms

-- What one symbol, none, or several are found as.
abbrev pub only_one : List ElfSymbol → Result (ℕ × ℕ)
only_one [] = err key_error
only_one (sym ∷ []) = ok (sym.value, sym.size)
only_one (sym ∷ other ∷ syms) = err exception

-- The same behind a symbol that was found.
abbrev no_more : ElfSymbol → List ElfSymbol → Result (Option ElfSymbol)
no_more found [] = ok (some found)
no_more found (other ∷ syms) = err exception

abbrev at_most_one : List ElfSymbol → Result (Option ElfSymbol)
at_most_one [] = ok none
at_most_one (sym ∷ syms) = no_more sym syms

find_from-some :
    (nm : String) (found : ElfSymbol) (syms : List (String × ElfSymbol))
    → find_from nm (some found) syms ≡ no_more found (named nm syms)
unfolding find_from
find_from-some nm found [] = refl
find_from-some nm found ((k, sym) ∷ syms) = elim (Bool-cases (str_eq k nm)) [
  | inl e ↦ rw (e, find_from) refl
  | inr e ↦ rw (e, find_from) (find_from-some nm found syms)
]

find_from-none :
    (nm : String) (syms : List (String × ElfSymbol))
    → find_from nm none syms ≡ at_most_one (named nm syms)
unfolding find_from
find_from-none nm [] = refl
find_from-none nm ((k, sym) ∷ syms) = elim (Bool-cases (str_eq k nm)) [
  | inl e ↦ rw (e, find_from) (find_from-some nm sym syms)
  | inr e ↦ rw (e, find_from) (find_from-none nm syms)
]

-- A symbol is found exactly where it is the only one of its name: with none, KeyError is raised, and
-- with several, Exception.
pub find_symbol-only_one :
    (nm : String) (elf : ElfFile) → find_symbol nm elf ≡ only_one (named nm elf.symbols)
unfolding find_symbol
find_symbol-only_one nm elf = rw (find_from-none nm elf.symbols) (settle (named nm elf.symbols))
  where
    settle :
        (syms : List ElfSymbol)
        → (at_most_one syms >>= λ found. elim found [
          | none ↦ err key_error
          | some sym ↦ ok (sym.value, sym.size)
        ])
          ≡ only_one syms
    settle [] = refl
    settle (sym ∷ []) = refl
    settle (sym ∷ other ∷ syms) = refl
