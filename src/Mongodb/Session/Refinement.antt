-- ===== src/Mongodb/Session/Refinement.antt =====
-- The handler against what it is for: a log of every request, and an answer to each.
use white_toyota_tacoma.Common.{◌+◌, length}
use white_toyota_tacoma.Common.Int.{pos}
use white_toyota_tacoma.Common.Bytes.{Bytes}
use white_toyota_tacoma.Conn.{Conn}
use white_toyota_tacoma.Mongodb.Message.{Header, signed32}
use white_toyota_tacoma.Mongodb.Session.Spec.{Request, request_id, op_of, payload_of}

header_of : Request → Header
header_of r = record {
  message_length = pos (16 + length (payload_of r));
  request_id = signed32 (request_id r);
  response_to = signed32 0;
  op_code = signed32 (op_of r);
}
