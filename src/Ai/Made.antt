-- ===== src/Ai/Made.antt =====
-- What a job of app/ai/service.py keeps from its creation along the calls of app/ai/store.py: the price
-- and the id, which its user and a request of the user make.
use ggumirror_be.Base.{ℕ, ◌≡◌, Option, none, some, [], ◌∷◌, arith, if-all}
use ggumirror_be.Base.Text.{Text, text_eq, ◌==◌}
use ggumirror_be.Base.Dict.{get, insert}
use ggumirror_be.Ai.Models.{Generation, generation_id}
use ggumirror_be.Ai.Service.{AiStickerService}
use ggumirror_be.Ai.Store.{
  Generations, Finish, finished, finish, finish_found, create_pending, had_or_made, stolen,
  steal_expired, steal_found,
}

-- A job of the service is made at the price, under the id of a request of its user.
abbrev pub IsMade : AiStickerService → Generation → Type 0
IsMade c g =
    (g.price ≡ c.price) × ((request : Text) × (g.id ≡ generation_id c.sha256 g.user_id request))

-- Every job was made by the service.
unfoldable pub AllMade : AiStickerService → Generations → Type 0
AllMade c [] = Unit {0}
AllMade c ((id, g) ∷ d) = IsMade c g × AllMade c d

abbrev pub FoundMade : AiStickerService → Option Generation → Type 0
FoundMade c none = Unit {0}
FoundMade c (some g) = IsMade c g

pub get-FoundMade :
    (c : AiStickerService) (id : Text) (d : Generations) → AllMade c d → FoundMade c (get id d)
unfolding AllMade get
get-FoundMade c id [] h = tt
get-FoundMade c id ((j, g) ∷ d) h =
    if-all (FoundMade c) (id == j) _ _ h.0 (get-FoundMade c id d h.1)

insert-AllMade :
    (c : AiStickerService) (id : Text) (g : Generation) (d : Generations)
    → IsMade c g
    → AllMade c d
    → AllMade c (insert id g d)
unfolding AllMade insert
insert-AllMade c id g [] e h = (e, tt)
insert-AllMade c id g ((j, k) ∷ d) e h =
    if-all (AllMade c) (id == j) _ _ (e, h.1) (h.0, insert-AllMade c id g d e h.1)

finish_found-AllMade :
    (c : AiStickerService) (found : Option Generation) (id : Text) (f : Finish) (now : ℕ)
    (d : Generations)
    → FoundMade c found
    → AllMade c d
    → AllMade c (finish_found found id f now d).1
unfolding finished
finish_found-AllMade c none id f now d e h = h
finish_found-AllMade c (some g) id f now d e h =
    let ended = finished g f now in ground (arith, h, insert-AllMade c id ended d e h)

pub finish-AllMade :
    (c : AiStickerService) (id : Text) (f : Finish) (now : ℕ) (d : Generations)
    → AllMade c d
    → AllMade c (finish id f now d).1
unfolding finish
finish-AllMade c id f now d h =
    finish_found-AllMade c (get id d) id f now d (get-FoundMade c id d h) h

steal_found-AllMade :
    (c : AiStickerService) (found : Option Generation) (id : Text) (now : ℕ) (d : Generations)
    → FoundMade c found
    → AllMade c d
    → FoundMade c (steal_found found id now d).0 × AllMade c (steal_found found id now d).1
unfolding stolen
steal_found-AllMade c none id now d e h = (tt, h)
steal_found-AllMade c (some g) id now d e h =
    let taken = stolen g now in ground (arith, h, insert-AllMade c id taken d e h)

pub steal_expired-AllMade :
    (c : AiStickerService) (id : Text) (now : ℕ) (d : Generations)
    → AllMade c d
    → FoundMade c (steal_expired id now d).0 × AllMade c (steal_expired id now d).1
unfolding steal_expired
steal_expired-AllMade c id now d h =
    steal_found-AllMade c (get id d) id now d (get-FoundMade c id d h) h

had_or_made-AllMade :
    (c : AiStickerService) (found : Option Generation) (g : Generation) (d : Generations)
    → FoundMade c found
    → IsMade c g
    → AllMade c d
    → IsMade c (had_or_made found g d).0.0 × AllMade c (had_or_made found g d).1
had_or_made-AllMade c none g d e made h = (made, insert-AllMade c g.id g d made h)
had_or_made-AllMade c (some old) g d e made h = (e, h)

pub create_pending-AllMade :
    (c : AiStickerService) (g : Generation) (d : Generations)
    → IsMade c g
    → AllMade c d
    → IsMade c (create_pending g d).0.0 × AllMade c (create_pending g d).1
unfolding create_pending
create_pending-AllMade c g d made h =
    had_or_made-AllMade c (get g.id d) g d (get-FoundMade c g.id d h) made h
