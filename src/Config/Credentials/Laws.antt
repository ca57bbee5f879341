-- ===== src/Config/Credentials/Laws.antt =====
-- internal/engine/config/credentials.go: the store in memory, and what an overlay and a fallback make
-- of a store.
use portcloak.Base.{◌≡◌, refl, false, String, str_eq, eq_refl, arith, if◌then◌else◌, not, ◌&&◌}
use portcloak.Base.Dict.{Dict, get-put, get-remove}
use portcloak.Base.Result.{ok, err}
use portcloak.Config.Credentials.{
  CredentialStore, CredentialError, missing, handle_key, memory, new_overlay, new_fallback,
  fall_back,
}

-- In memory, a value that is set under a well-formed handle is what `Get` answers for it, and none is
-- there after `Delete`, which does not fail.
pub memory_round_trip :
    (m : Dict String) (h v : String) {k : String}
    → handle_key h ≡ ok k
    → (memory.get (memory.set m h v).1 h ≡ ok v)
      × ((memory.delete m h).0 ≡ ok tt)
      × (memory.get (memory.delete m h).1 h ≡ err (missing h ""))
unfolding memory
memory_round_trip m h v {k} w = (
  ground (arith, w, get-put m k k v, eq_refl k),
  ground (arith, w),
  ground (arith, w, get-remove m k k, eq_refl k),
)

module _ {S : Type 0} (base : CredentialStore S) where
  -- A draft secret that is not empty is answered for its handle alone; everything else, and every write,
  -- is the base store's. An empty draft is the base store.
  overlay_answers :
      (h v g w : String) (s : S)
      → ((new_overlay base h v).get s g
          ≡ (if not (str_eq h "") && (not (str_eq v "") && str_eq g h) then ok v else base.get s g))
        × ((new_overlay base h v).set s g w ≡ base.set s g w)
        × ((new_overlay base h v).delete s g ≡ base.delete s g)
  unfolding new_overlay
  overlay_answers h v g w s = (ground arith, ground arith, ground arith)

  -- Behind a fallback, a value that the primary store has taken is what `Get` answers, whatever the
  -- secondary store has, which a write leaves as it was; and where the primary store fails, `Get` answers the
  -- value of the secondary store.
  pub fallback_order :
      {T : Type 0} (second : CredentialStore T) (s : S) (t : T) (h v g w : String)
      (e : CredentialError)
      → base.get (base.set s h v).1 h ≡ ok v
      → str_eq v "" ≡ false
      → base.get s g ≡ err e
      → second.get t g ≡ ok w
      → str_eq w "" ≡ false
      → let both = new_fallback base second in
        (both.get (both.set (s, t) h v).1 h ≡ ok v)
        × ((both.set (s, t) h v).1.1 ≡ t)
        × (both.get (s, t) g ≡ ok w)
  unfolding new_fallback fall_back
  fallback_order second s t h v g w e kept full fails found filled =
      (ground (arith, kept, full), refl, ground (arith, fails, found, filled))
