-- ===== src/Websocket/Registered.antt =====
-- Which clients are registered in the hub of internal/websocket/hub.go.
use lol_overlay.Prelude.{
  ℕ, String, ◌≡◌, refl, sym, inl, inr, Bool, false, not, ◌&&◌, ◌||◌, List, [], ◌∷◌, arith, ◌==◌,
  eq_iff, nat_eq, if◌then◌else◌, Bool-cases, All,
}
use lol_overlay.Websocket.{
  Hub, contains, insert, remove, clients_of, add_entry, put_left, remove_entry,
}

abbrev pub is_registered : String → ℕ → Hub → Bool
is_registered room_id c hub = contains c (clients_of room_id hub.clients)

abbrev OtherId : String → String × List ℕ → Type 0
OtherId id (other, cs) = (other == id) ≡ false

abbrev HasClients : List ℕ → Type 0
HasClients [] = ⊥
HasClients (c ∷ cs) = Unit

-- No room stands twice in the map or is left in it without clients.
abbrev pub IsTidy : List (String × List ℕ) → Type 0
IsTidy [] = Unit
IsTidy ((id, cs) ∷ rest) = All (OtherId id) rest × HasClients cs × IsTidy rest

contains-insert :
    (c other : ℕ) (cs : List ℕ) → contains other (insert c cs) ≡ contains other cs || nat_eq other c
contains-insert c other cs = elim (Bool-cases (contains c cs)) [
  | inl e ↦ elim (Bool-cases (nat_eq other c)) [
    | inl q ↦ let same : other ≡ c = ground arith in rw (same, e) (ground arith)
    | inr q ↦ ground arith
  ]
  | inr e ↦ ground arith
]

pub contains-remove :
    (c other : ℕ) (cs : List ℕ)
    → contains other (remove c cs) ≡ contains other cs && not (nat_eq c other)
contains-remove c other [] = refl
contains-remove c other (x ∷ rest) = ground (arith, contains-remove c other rest)

pub contains-add_entry :
    (room_id : String) (c : ℕ) (id : String) (other : ℕ) (entries : List (String × List ℕ))
    → contains other (clients_of id (add_entry room_id c entries))
      ≡ contains other (clients_of id entries) || (room_id == id && nat_eq other c)
unfolding clients_of add_entry
contains-add_entry room_id c id other [] = ground arith
contains-add_entry room_id c id other ((x, cs) ∷ rest) = ground (
  arith,
  eq_iff x room_id,
  eq_iff x id,
  eq_iff room_id id,
  contains-insert c other cs,
  contains-add_entry room_id c id other rest,
)

no_clients :
    (id : String) (entries : List (String × List ℕ))
    → All (OtherId id) entries
    → clients_of id entries ≡ []
unfolding clients_of
no_clients id [] h = refl
no_clients id ((x, cs) ∷ rest) h = rw (h.0) (no_clients id rest h.1)

clients_of-put_left :
    (id x : String) (left : List ℕ) (rest : List (String × List ℕ))
    → All (OtherId x) rest
    → clients_of id (put_left x left rest) ≡ (if x == id then left else clients_of id rest)
unfolding clients_of
clients_of-put_left id x [] rest h = elim (Bool-cases (x == id)) [
  | inl e ↦ rw e (rw (sym ((eq_iff x id).0 e)) (no_clients x rest h))
  | inr e ↦ rw e refl
]
clients_of-put_left id x (c ∷ cs) rest h = refl

pub contains-remove_entry :
    (room_id : String) (c : ℕ) (id : String) (other : ℕ) (entries : List (String × List ℕ))
    → IsTidy entries
    → contains other (clients_of id (remove_entry room_id c entries))
      ≡ contains other (clients_of id entries) && not (room_id == id && nat_eq c other)
unfolding clients_of remove_entry
contains-remove_entry room_id c id other [] h = refl
contains-remove_entry room_id c id other ((x, cs) ∷ rest) h = elim (Bool-cases (x == room_id)) [
  | inl e ↦ rw e (
      rw (clients_of-put_left id x (remove c cs) rest h.0) (
        ground
          (arith, eq_iff x id, eq_iff x room_id, eq_iff room_id id, contains-remove c other cs)))
  | inr e ↦ rw e (
      ground (
        arith,
        eq_iff x id,
        eq_iff x room_id,
        eq_iff room_id id,
        contains-remove_entry room_id c id other rest h.2,
      ))
]

add_entry-other :
    (id room_id : String) (c : ℕ) (entries : List (String × List ℕ))
    → (room_id == id) ≡ false
    → All (OtherId id) entries
    → All (OtherId id) (add_entry room_id c entries)
unfolding add_entry
add_entry-other id room_id c [] apart h = (apart, tt)
add_entry-other id room_id c ((x, cs) ∷ rest) apart h = elim (Bool-cases (x == room_id)) [
  | inl e ↦ rw e (h.0, h.1)
  | inr e ↦ rw e (h.0, add_entry-other id room_id c rest apart h.1)
]

insert-HasClients : (c : ℕ) (cs : List ℕ) → HasClients cs → HasClients (insert c cs)
insert-HasClients c [] h = elim h [ ]
insert-HasClients c (x ∷ cs) h = elim (Bool-cases (contains c (x ∷ cs))) [
  | inl e ↦ rw e tt
  | inr e ↦ rw e tt
]

pub add_entry-IsTidy :
    (room_id : String) (c : ℕ) (entries : List (String × List ℕ))
    → IsTidy entries
    → IsTidy (add_entry room_id c entries)
unfolding add_entry
add_entry-IsTidy room_id c [] h = (tt, tt, tt)
add_entry-IsTidy room_id c ((x, cs) ∷ rest) h = elim (Bool-cases (x == room_id)) [
  | inl e ↦ rw e (h.0, insert-HasClients c cs h.1, h.2)
  | inr e ↦
      let apart : (room_id == x) ≡ false = ground (arith, eq_iff room_id x, eq_iff x room_id, e) in
      rw e (add_entry-other x room_id c rest apart h.0, h.1, add_entry-IsTidy room_id c rest h.2)
]

put_left-other :
    (id x : String) (left : List ℕ) (rest : List (String × List ℕ))
    → (x == id) ≡ false
    → All (OtherId id) rest
    → All (OtherId id) (put_left x left rest)
put_left-other id x [] rest apart h = h
put_left-other id x (c ∷ cs) rest apart h = (apart, h)

remove_entry-other :
    (id room_id : String) (c : ℕ) (entries : List (String × List ℕ))
    → All (OtherId id) entries
    → All (OtherId id) (remove_entry room_id c entries)
unfolding remove_entry
remove_entry-other id room_id c [] h = tt
remove_entry-other id room_id c ((x, cs) ∷ rest) h = elim (Bool-cases (x == room_id)) [
  | inl e ↦ rw e (put_left-other id x (remove c cs) rest h.0 h.1)
  | inr e ↦ rw e (h.0, remove_entry-other id room_id c rest h.1)
]

put_left-IsTidy :
    (x : String) (left : List ℕ) (rest : List (String × List ℕ))
    → All (OtherId x) rest
    → IsTidy rest
    → IsTidy (put_left x left rest)
put_left-IsTidy x [] rest other h = h
put_left-IsTidy x (c ∷ cs) rest other h = (other, tt, h)

pub remove_entry-IsTidy :
    (room_id : String) (c : ℕ) (entries : List (String × List ℕ))
    → IsTidy entries
    → IsTidy (remove_entry room_id c entries)
unfolding remove_entry
remove_entry-IsTidy room_id c [] h = tt
remove_entry-IsTidy room_id c ((x, cs) ∷ rest) h = elim (Bool-cases (x == room_id)) [
  | inl e ↦ rw e (put_left-IsTidy x (remove c cs) rest h.0 h.2)
  | inr e ↦
      rw e (remove_entry-other x room_id c rest h.0, h.1, remove_entry-IsTidy room_id c rest h.2)
]
