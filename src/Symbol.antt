-- ===== src/Symbol.antt =====
-- kernel/symbol.c: the kernel's symbols, and the one that an address belongs to. A symbol goes by the
-- address of its `list`. Where its block lies is an argument.
pub mod Nearest
use mint.Base.{
  ℕ, zero, suc, ◌+◌, ◌-◌, ◌^◌, Option, none, some, ◌>>=◌, ltb, leb, ◌==◌, if◌then◌else◌,
}
use mint.Ring.{Links, list_add}
use mint.Memory.{Memory, write}
use mint.Strings.{strncpy}

-- The `address` and the `name` of the symbol at every address, the bytes in memory, and the head of
-- `ksymbol_list`.
pub record Symbols : Type 0 where
  pub links : Links
  pub address : ℕ → ℕ
  pub name : ℕ → ℕ
  pub bytes : Memory
  pub ksymbol_list : ℕ

-- With the address of the `list` of the new block and that of its `name`.
unfoldable pub ksymbol_register : Symbols → ℕ → ℕ → ℕ → ℕ → ℕ → Symbols
ksymbol_register s ksymbol block_name address name name_size = record {
  links = list_add s.links s.ksymbol_list ksymbol;
  address = λ x. if ksymbol == x then address else s.address x;
  name = λ x. if ksymbol == x then block_name else s.name x;
  bytes = write (strncpy s.bytes block_name name name_size).1 (block_name + name_size) 0;
  ksymbol_list = s.ksymbol_list;
}

-- `struct ksymbol_resolve`.
pub record KsymbolResolve : Type 0 where
  pub address : ℕ
  pub name : ℕ
  pub offset : ℕ

-- One round of the loop of `ksymbol_resolve`: `resolve` and `difference` after it.
abbrev pub nearer : Symbols → ℕ → ℕ → KsymbolResolve × ℕ → KsymbolResolve × ℕ
nearer s address ksymbol (resolve, difference) =
    let temp = address - s.address ksymbol in
    if leb (s.address ksymbol) address
    then (if ltb temp difference
        then (record { address = s.address ksymbol; name = s.name ksymbol; offset = temp }, temp)
        else (resolve, difference))
    else (resolve, difference)

-- The loop, on fuel, from `ksymbol` on.
unfoldable pub resolve_from : ℕ → Symbols → ℕ → ℕ → KsymbolResolve × ℕ → Option (KsymbolResolve × ℕ)
resolve_from zero s address ksymbol best = none
resolve_from (suc fuel) s address ksymbol best =
    let rest = resolve_from fuel s address (s.links.next ksymbol) (nearer s address ksymbol best) in
    if ksymbol == s.ksymbol_list then some best else rest

-- `unknown` is the address of that text.
unfoldable pub ksymbol_resolve : ℕ → Symbols → ℕ → ℕ → Option KsymbolResolve
ksymbol_resolve fuel s unknown address =
    resolve_from fuel s address (s.links.next s.ksymbol_list)
      (record { address = 0; name = unknown; offset = 0 }, 2 ^ 64 - 1)
    >>= λ (resolve, difference). some resolve
