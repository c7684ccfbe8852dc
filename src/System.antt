-- ===== src/System.antt =====
-- src/rava_system.c: what the operating system's counters look like to Lua. The calls of libuv are
-- given, with their results as data. A table of rows is the list of its rows, from index 1 on.
use rava.Base.{ℕ, ◌≡◌, refl, Bool, List, [], ◌∷◌, ◌++◌, Option, none, some, map, All}
use rava.Outcome.{Outcome, ok, raised, fault, ◌>>=◌, thrown}

-- uv_cpu_info_t
pub record Cpu : Type 0 where
  pub model : List ℕ
  pub speed : ℕ
  pub user : ℕ
  pub nice : ℕ
  pub sys : ℕ
  pub idle : ℕ
  pub irq : ℕ

-- uv_interface_address_t: an address is its family and the text of it.
pub data Family : Type 0 where
  inet : Family
  inet6 : Family
  other : Family

pub record Interface : Type 0 where
  pub name : List ℕ
  pub is_internal : Bool
  pub family : Family
  pub text : List ℕ

-- A row of rava_system_interfaces
pub record Row : Type 0 where
  pub name : List ℕ
  pub is_internal : Bool
  pub address : List ℕ

-- luaL_error of libuv's error, or the values
unfoldable pub or_raise {ℓ} : {A : Type ℓ} → Option ℕ → A → Outcome A
or_raise none a = ok a
or_raise (some e) a = raised (thrown e)

-- `lua_rawseti(L, 1, i + 1)` for each processor in turn
unfoldable pub cpu_rows : List Cpu → List Cpu
cpu_rows [] = []
cpu_rows (c ∷ cs) =
    record {
      model = c.model;
      speed = c.speed;
      user = c.user;
      nice = c.nice;
      sys = c.sys;
      idle = c.idle;
      irq = c.irq;
    }
    ∷ cpu_rows cs

unfoldable pub system_cpus : Option ℕ → List Cpu → Outcome (List Cpu)
unfolding or_raise cpu_rows
system_cpus r info = or_raise r (cpu_rows info)

-- `buf` is written for the two families that are known, and lives on from one round to the next.
unfoldable pub name_interface : Interface → Option (List ℕ) → Option (List ℕ)
name_interface x buf = written x.family
  where
    written : Family → Option (List ℕ)
    written inet = some x.text
    written inet6 = some x.text
    written other = buf

unfoldable pub interface_row : Interface → Option (List ℕ) → Outcome Row
interface_row x none = fault
interface_row x (some text) =
    ok (record { name = x.name; is_internal = x.is_internal; address = text })

unfoldable pub interface_rows : List Interface → Option (List ℕ) → Outcome (List Row)
unfolding name_interface interface_row
interface_rows [] buf = ok []
interface_rows (x ∷ xs) buf =
    let buf' = name_interface x buf in
    interface_row x buf' >>= λ row. interface_rows xs buf' >>= λ rows. ok (row ∷ rows)

unfoldable pub system_interfaces : Option ℕ → List Interface → Outcome (List Row)
unfolding or_raise interface_rows
system_interfaces r info = or_raise r info >>= λ xs. interface_rows xs none

-- rava_system_load, _memory and _microtime; rava_system_uptime
unfoldable pub system_load : ℕ × ℕ × ℕ → List ℕ
system_load (a, b, c) = a ∷ b ∷ c ∷ []

pub record Memory : Type 0 where
  pub free : ℕ
  pub total : ℕ

unfoldable pub system_memory : ℕ → ℕ → Memory
system_memory free total = record { free = free; total = total }

unfoldable pub system_uptime : Option ℕ → ℕ → Outcome ℕ
unfolding or_raise
system_uptime r uptime = or_raise r uptime

abbrev pub IsKnown : Family → Type 0
IsKnown inet = Unit {0}
IsKnown inet6 = Unit {0}
IsKnown other = ⊥

-- The row of an interface with a given address
abbrev pub row_with : List ℕ → Interface → Row
row_with text x = record { name = x.name; is_internal = x.is_internal; address = text }

abbrev pub own_row : Interface → Row
own_row x = row_with x.text x

named :
    (x : Interface) (buf : Option (List ℕ)) → IsKnown x.family → name_interface x buf ≡ some x.text
unfolding name_interface
named x buf k = split x.family k
  where
    split : (f : Family) → IsKnown f → name_interface (record x { family = f }) buf ≡ some x.text
    split inet k = refl
    split inet6 k = refl
    split other k = absurd k

stale : (x : Interface) (buf : Option (List ℕ)) → x.family ≡ other → name_interface x buf ≡ buf
unfolding name_interface
stale x buf e = rw e refl

rows-own :
    (xs : List Interface) (buf : Option (List ℕ))
    → All (λ x. IsKnown x.family) xs
    → interface_rows xs buf ≡ ok (map own_row xs)
unfolding interface_rows interface_row
rows-own [] buf k = refl
rows-own (x ∷ xs) buf (k, ks) = rw (named x buf k, rows-own xs (some x.text) ks) refl

rows-stale :
    (xs zs : List Interface) (y x : Interface) (buf : Option (List ℕ))
    → All (λ y. IsKnown y.family) xs
    → All (λ y. IsKnown y.family) zs
    → IsKnown y.family
    → x.family ≡ other
    → interface_rows (xs ++ y ∷ x ∷ zs) buf
      ≡ ok (map own_row xs ++ own_row y ∷ row_with y.text x ∷ map own_row zs)
unfolding interface_rows interface_row
rows-stale [] zs y x buf k ks ky e =
    rw (named y buf ky, stale x (some y.text) e, rows-own zs (some y.text) ks) refl
rows-stale (z ∷ xs) zs y x buf (k, ks) kz ky e =
    rw (named z buf k, rows-stale xs zs y x (some z.text) ks kz ky e) refl

-- Interfaces `xs`, `y` and `zs` have an IPv4 or an IPv6 address, and `x` is of another family. The
-- interfaces `xs` alone are listed with their own addresses, in libuv's order. If `x` stands between
-- `y` and `zs`, it is listed with the address of `y`, and all others with their own. If `x` comes
-- first, memory is read that was not written.
pub system_interfaces-rows :
    (xs zs : List Interface) (y x : Interface)
    → All (λ y. IsKnown y.family) xs
    → All (λ y. IsKnown y.family) zs
    → IsKnown y.family
    → x.family ≡ other
    → (system_interfaces none xs ≡ ok (map own_row xs))
      × (system_interfaces none (xs ++ y ∷ x ∷ zs)
          ≡ ok (map own_row xs ++ own_row y ∷ row_with y.text x ∷ map own_row zs))
      × (system_interfaces none (x ∷ xs) ≡ fault)
unfolding system_interfaces interface_rows interface_row or_raise
system_interfaces-rows xs zs y x known after ky e =
    (rows-own xs none known, rows-stale xs zs y x none known after ky e, rw (stale x none e) refl)
