-- ===== src/Router/Queues.antt =====
-- The queues of router.cc: what arrives waits in the order of arrival, and `route` empties them.
use tcp_implementation.Base.{
  ◌≡◌, refl, ap, ◌∙◌, arith, List, [], ◌∷◌, ◌++◌, map, append-nil, append_assoc, some, length,
  length-append, true,
}
use tcp_implementation.Ipv4.{Ipv4Datagram, with_cksum}
use tcp_implementation.Ipv4.RoundTrip.{IsDatagram, datagram_wire, checksum_of}
use tcp_implementation.Ethernet.{EthernetAddress, type_ipv4}
use tcp_implementation.NetworkInterface.{make_frame}
use tcp_implementation.NetworkInterface.Frames.{listens, recv_ipv4_frame}
use tcp_implementation.Router.{
  AsyncNetworkInterface, Router, recv_frame, add_interface, interface_at, route, route_loop,
  route_queue, route_one_datagram,
}

route_queue_lem : (queue : List Ipv4Datagram) (r : Router) → route_queue queue r ≡ r
unfolding route_queue route_one_datagram
route_queue_lem [] r = refl
route_queue_lem (d ∷ rest) r = route_queue_lem rest r

-- An interface with an empty queue.
abbrev pub emptied : AsyncNetworkInterface → AsyncNetworkInterface
emptied a = record a { datagrams_out = [] }

route_loop_lem :
    (done rest : List AsyncNetworkInterface) (r : Router)
    → route_loop done rest r ≡ record { interfaces = done ++ map emptied rest }
unfolding route_loop
route_loop_lem done [] r = rw (append-nil done) refl
route_loop_lem done (a ∷ rest) r =
    route_loop_lem (done ++ emptied a ∷ []) rest (route_queue a.datagrams_out r)
    ∙ rw (append_assoc done (emptied a ∷ []) (map emptied rest)) refl

-- `route` takes every datagram out of every queue and sends none of them: the interfaces keep their
-- frames, tables and waiting datagrams, and only their queues are empty.
pub route_drops_all : (r : Router) → route r ≡ record { interfaces = map emptied r.interfaces }
unfolding route
route_drops_all r = route_loop_lem [] r.interfaces r

interface_at-append :
    (xs : List AsyncNetworkInterface) (a : AsyncNetworkInterface)
    → interface_at (xs ++ a ∷ []) (length xs) ≡ some a
unfolding interface_at
interface_at-append [] a = refl
interface_at-append (x ∷ xs) a = interface_at-append xs a

-- The index that `add_interface` returns is that of the new interface.
pub interface_at-add_interface :
    (r : Router) (a : AsyncNetworkInterface)
    → interface_at (add_interface r a).0.interfaces (add_interface r a).1 ≡ some a
unfolding add_interface
interface_at-add_interface r a =
    let l = length-append r.interfaces (a ∷ []) in
    ap (interface_at (r.interfaces ++ a ∷ [])) (omega arith) ∙ interface_at-append r.interfaces a

-- A well-formed datagram that arrives goes to the end of the queue, with its checksum in the header,
-- and the interface below it does not change.
pub recv_frame_queues :
    (a : AsyncNetworkInterface) (dst src : EthernetAddress) (d : Ipv4Datagram)
    → listens a.interface dst ≡ true
    → IsDatagram d
    → recv_frame a (make_frame dst src type_ipv4 (datagram_wire d))
      ≡ some (record a {
        datagrams_out =
            a.datagrams_out
            ++ record d { header = with_cksum d.header (checksum_of d.header) } ∷ [];
      })
unfolding recv_frame
recv_frame_queues a dst src d l v = rw (recv_ipv4_frame a.interface dst src d l v) refl
