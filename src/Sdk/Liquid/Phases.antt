-- ===== src/Sdk/Liquid/Phases.antt =====
-- packages/ac2-sdk/src/providers/liquid-auth.ts: the phases of a link, and the operations that keep them.
use ac.Common.{
  or_else, ℕ, ◌≡◌, ◌⊎◌, inl, inr, refl, Option, none, some, Bool, true, false, ◌&&◌, arith,
}
use ac.Sdk.Liquid.{
  Link, close_unless, close_channel, close_of, close_if, dispose, connect_unless, negotiated_if,
  rearm_if, established_with, connect_fails, give_up_if,
}

-- The phases of a link, by its fields: nothing in flight, waiting for the wallet, its channels there
-- and not yet open, disposed of in between, and up. `closed` keeps no link that is up or under way.
pub data Phase (connected negotiating heartbeat closed listening armed : Bool)
    (peer close : Option ℕ) : Type 0 where
  idle :
      connected ≡ false
      → negotiating ≡ false
      → heartbeat ≡ false
      → Phase connected negotiating heartbeat closed listening armed peer close
  parked :
      connected ≡ false
      → negotiating ≡ true
      → heartbeat ≡ false
      → closed ≡ false
      → peer ≡ none
      → Phase connected negotiating heartbeat closed listening armed peer close
  met :
      (id : ℕ)
      → connected ≡ false
      → negotiating ≡ true
      → heartbeat ≡ false
      → closed ≡ false
      → peer ≡ some id
      → armed ≡ false
      → Phase connected negotiating heartbeat closed listening armed peer close
  gone :
      connected ≡ false
      → negotiating ≡ true
      → heartbeat ≡ false
      → listening ≡ false
      → peer ≡ none
      → armed ≡ false
      → Phase connected negotiating heartbeat closed listening armed peer close
  up :
      (id : ℕ)
      → connected ≡ true
      → negotiating ≡ false
      → heartbeat ≡ true
      → closed ≡ false
      → peer ≡ some id
      → armed ≡ false
      → close ≡ some id
      → Phase connected negotiating heartbeat closed listening armed peer close

abbrev pub IsSound : Link → Type 0
IsSound l = Phase l.connected l.negotiating l.heartbeat l.closed l.listening l.armed l.peer l.close

pub connect_unless-IsSound :
    (b : Bool) (l : Link) → IsSound l → IsSound (or_else (connect_unless b l) l)
connect_unless-IsSound true l h = h
connect_unless-IsSound false l h = parked refl refl refl refl refl

pub negotiated_if-IsSound :
    (b : Bool) (l : Link) → l.armed ≡ b → IsSound l → IsSound (negotiated_if b l)
negotiated_if-IsSound false l e h = h
negotiated_if-IsSound true l e (idle c n b) = idle c n b
negotiated_if-IsSound true l e (parked c n b d p) = met l.next_peer c n b d refl refl
negotiated_if-IsSound true l e (met id c n b d p a) = met l.next_peer c n b d refl refl
negotiated_if-IsSound true l e (gone c n b s p a) = absurd (ground arith)
negotiated_if-IsSound true l e (up id c n b d p a k) = absurd (ground arith)

pub rearm_if-IsSound :
    (b : Bool) (l : Link) → (l.negotiating && l.listening) ≡ b → IsSound l → IsSound (rearm_if b l)
rearm_if-IsSound false l e h = h
rearm_if-IsSound true l e (idle c n b) = absurd (ground arith)
rearm_if-IsSound true l e (parked c n b d p) = parked c n refl d refl
rearm_if-IsSound true l e (met id c n b d p a) = parked c n refl d refl
rearm_if-IsSound true l e (gone c n b s p a) = absurd (ground arith)
rearm_if-IsSound true l e (up id c n b d p a k) = absurd (ground arith)

pub established-IsSound :
    (peer : Option ℕ) (b : Bool) (l : Link)
    → l.peer ≡ peer
    → l.negotiating ≡ b
    → IsSound l
    → IsSound (established_with peer b l)
established-IsSound none b l p e h = h
established-IsSound (some id) false l p e h = h
established-IsSound (some id) true l p e (idle c n b) = absurd (ground arith)
established-IsSound (some id) true l p e (parked c n b d q) = absurd (ground arith)
established-IsSound (some id) true l p e (met j c n b d q a) = up id refl refl refl d p a refl
established-IsSound (some id) true l p e (gone c n b s q a) = absurd (ground arith)
established-IsSound (some id) true l p e (up j c n b d q a k) = absurd (ground arith)

pub fails-IsSound : (l : Link) → IsSound l → IsSound (connect_fails l)
unfolding connect_fails
fails-IsSound l (idle c n b) = idle c refl b
fails-IsSound l (parked c n b d p) = idle c refl b
fails-IsSound l (met id c n b d p a) = idle c refl b
fails-IsSound l (gone c n b s p a) = idle c refl b
fails-IsSound l (up id c n b d p a k) = up id c refl b d p a k

pub give_up-IsSound :
    (b : Bool) (l : Link) → l.negotiating ≡ b → IsSound l → IsSound (give_up_if b l)
give_up-IsSound false l e h = h
give_up-IsSound true l e (idle c n b) = idle c refl refl
give_up-IsSound true l e (parked c n b d p) = idle c refl refl
give_up-IsSound true l e (met id c n b d p a) = idle c refl refl
give_up-IsSound true l e (gone c n b s p a) = idle c refl refl
give_up-IsSound true l e (up id c n b d p a k) = absurd (ground arith)

pub dispose-IsSound : (l : Link) → IsSound l → IsSound (dispose l)
unfolding dispose
dispose-IsSound l (idle c n b) = idle refl n refl
dispose-IsSound l (parked c n b d p) = gone refl n refl refl refl refl
dispose-IsSound l (met id c n b d p a) = gone refl n refl refl refl refl
dispose-IsSound l (gone c n b s p a) = gone refl n refl refl refl refl
dispose-IsSound l (up id c n b d p a k) = idle refl n refl

-- A close with no `connect` in flight.
pub close_unless-IsSound :
    (b : Bool) (id : ℕ) (l : Link)
    → l.negotiating ≡ false
    → IsSound l
    → IsSound (close_unless b id l)
close_unless-IsSound true id l n h = h
close_unless-IsSound false id l n h = idle refl n refl

pub close_of-IsSound :
    (k : Option ℕ) (l : Link) → l.negotiating ≡ false → IsSound l → IsSound (close_of k l)
unfolding close_channel
close_of-IsSound none l n h = h
close_of-IsSound (some id) l n h = close_unless-IsSound l.closed id l n h

pub close_if-IsSound :
    (b : Bool) (l : Link)
    → (b ≡ false) ⊎ (l.negotiating ≡ false)
    → IsSound l
    → IsSound (close_if b l)
unfolding close_if
close_if-IsSound false l c h = h
close_if-IsSound true l (inl c) h = absurd (ground arith)
close_if-IsSound true l (inr n) h = close_of-IsSound l.close l n h
