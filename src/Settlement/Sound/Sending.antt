-- ===== src/Settlement/Sound/Sending.antt =====
-- signAndSend leaves the trace as it was, or puts one broadcast on it, of what `onSigned` wrote.
use ma_at.Prelude.{◌≡◌, ◌∷◌, Text, text_eq_refl, some}
use ma_at.IntentStatus.{OnChainIntent}
use ma_at.Settlement.World.{Transaction, Outside, saw, World, move, Exec, ◌>>=◌}
use ma_at.Settlement.Chain.{OnSigned, note_broadcast, sign_and_send, read_intent}
use ma_at.Settlement.Keeps.{
  keeps-catch, keeps-pure, keeps-bind-outward, keeps-bind-modify, keeps-bind-observe,
}
use ma_at.Settlement.Trace.{latest, Justified, Sound, IsSound, sent}

module _ {W : Type 0} (out : Outside W) where
  -- What `onSigned` owes to a broadcast.
  pub record Announces (tx : Transaction) (on_signed : OnSigned W) (w : World W) : Type 0 where
    pub quiet : (hash : Text) (o : W) → (on_signed hash (move o w)).trace ≡ w.trace
    pub justified :
        (hash : Text) (o : W) → Justified (sent tx hash (on_signed hash (move o w))) w.trace

  pub sign_and_send-Sound :
      (from : Text) (tx : Transaction) (on_signed : OnSigned W) (w : World W)
      → Announces tx on_signed w
      → Sound w.trace
      → Sound (sign_and_send out from tx on_signed w).1.trace
  unfolding sign_and_send note_broadcast
  sign_and_send-Sound from tx on_signed w a s =
      keeps-catch IsSound _ _ w
        (keeps-bind-outward IsSound _ _ w (λ o. s)
          λ hash o e. keeps-bind-modify IsSound _ _ (move o w) (
            keeps-bind-modify IsSound _ _ (on_signed hash (move o w)) (
              keeps-bind-outward IsSound _ _ _ (λ o'. broadcast_sound hash o)
                (λ receipt o' e'. keeps-pure IsSound _ _ (broadcast_sound hash o)))))
        (λ e w' h. keeps-pure IsSound _ w' h)
    where
      broadcast_sound :
          (hash : Text) (o : W)
          → Sound (sent tx hash (on_signed hash (move o w)) ∷ (on_signed hash (move o w)).trace)
      broadcast_sound hash o = rw (a.quiet hash o) (a.justified hash o, s)

  -- What follows a reading of an intent may use that it is the latest one.
  pub read_intent-Sound :
      {B : Type 0} (id : Text) (f : OnChainIntent → Exec W B) (w : World W)
      → Sound w.trace
      → ((o : OnChainIntent) (w' : World W)
          → latest id w'.trace ≡ some o
          → Sound w'.trace
          → Sound (f o w').1.trace)
      → Sound ((read_intent out id >>= f) w).1.trace
  unfolding read_intent
  read_intent-Sound id f w s k =
      keeps-bind-observe IsSound (out.read_intent id) (saw id) f w (λ o. s)
        λ on_chain o. k on_chain _ (rw text_eq_refl) (tt, s)
