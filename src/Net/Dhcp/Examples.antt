-- ===== src/Net/Dhcp/Examples.antt =====
-- A DHCP offer, and the client's own messages, as concrete inputs.
use conc_os.Common.{◌≡◌, refl, length, ok, err}
use conc_os.Net.Dhcp.{from_message, build_discover, build_request, offer, not_a_reply}
use conc_os.Net.Dhcp.Replies.{Fields, IsLayout, message}
use conc_os.Net.Dhcp.Accepted.{IsReply, from_message_accepts}
use conc_os.Net.Dhcp.Messages.{client, lease, offered}

offered_accepted : from_message (message offered) 0x12345678 client offer ≡ ok lease
unfolding from_message
offered_accepted = refl

from_message_accepts_example :
    (f : Fields) × IsLayout f
    × (message offered ≡ message f)
    × IsReply f 0x12345678 client offer lease
from_message_accepts_example =
    from_message_accepts (message offered) 0x12345678 client offer lease offered_accepted

discover_length : length (build_discover client 7) ≡ 300
unfolding build_discover
discover_length = refl

own_request_refused : from_message (build_request client 7 lease) 7 client offer ≡ err not_a_reply
unfolding build_request from_message
own_request_refused = refl
