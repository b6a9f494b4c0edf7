-- ===== src/Cache/Handler/Exceptions.antt =====
-- The exception lists of the writers that ServeDNS and the refreshes make.
use coredns_ez.Cache.Item.{Item}
use coredns_ez.Cache.State.{Cache}
