-- ===== src/Base.antt =====
-- The names that every module shares: those of the libraries, passed on, and the containers and
-- the error monad that stand for Rust's standard library.
mod Tests
mod Lists
mod Words
mod Strings
mod Int
mod Results
mod Order
pub mod Sets
pub mod Maps
pub use Tests.*
unfoldable pub use Strings.*
pub use Words.*
pub use Lists.*
pub use Int.*
pub use Results.*
unfoldable pub use Order.*
pub use Maps.{Map, map_laws, map_option, is_some, get_or}
pub use Sets.{Set, set_laws}
pub use Prim.Native.Nat.{Ordering, ℕ, zero, suc, ◌+◌, ◌-◌, ◌*◌, ◌/◌, ◌%◌, ◌^◌, ◌≤◌, ◌<◌, min, max}
pub use mathlib.Core.Path.{◌≡◌, refl, sym, ap, ◌∙◌}
pub use mathlib.Core.Logic.{◌≢◌, ◌↔◌, ◌⊎◌, inl, inr}
pub use mathlib.Core.Bool.{Bool, true, false, not, ◌&&◌, ◌||◌}
pub use mathlib.Core.Option.{Option, none, some}
pub use mathlib.Core.List.{List, [], ◌∷◌, ◌++◌, map}
pub use native.Mathlib.Omega.{arith}
